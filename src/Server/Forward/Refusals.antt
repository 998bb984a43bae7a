-- ===== src/Server/Forward/Refusals.antt =====
-- Requests that ownership refuses (src/ida_bridge/server.py): who is told what, and what stays.
use ida_bridge.Common.{
  ℕ, ◌≡◌, ◌≢◌, refl, String, true, false, Option, none, some, [], ◌∷◌, arith, text_key, same_iff,
  ◌<◌,
}
use ida_bridge.Common.Dict.{get, IsUnique}
use ida_bridge.Protocol.Json.{Fields}
use ida_bridge.Protocol.Message.{Route, ida, Response, response, exec_payload, reset_payload}
use ida_bridge.Protocol.Response.{error_response, error_body}
use ida_bridge.Server.State.{
  Server, Client, Ownership, owned, takeover_pending, release_pending, locked_unknown,
}
use ida_bridge.Server.Co.{ret, valid}
use ida_bridge.Server.Co.Run.{Run, run, returned, sent, delivers_all}
use ida_bridge.Server.Ownership.{is_expired, expire_ownerships}
use ida_bridge.Server.Ownership.Expiry.{get-expire}
use ida_bridge.Server.Policy.{
  EnvRequest, exec, reset, requested_session, is_stateless, is_takeover_request, rejection,
  other_session_trace, stateful_mode_trace, get_ownership, policy_for, stateful_policy,
  stateless_policy, owned_by_other,
}
use ida_bridge.Server.Forward.{forward_to_ida}

-- A request from a registered agent to a registered IDA, with an id that is not in use.
pub record Arrives (s : Server) (agent_id : String) (route : Route) : Type 0 where
  pub agent_client : Client
  pub ida_client : Client
  pub agent_registered : get agent_id s.clients ≡ some agent_client
  pub ida_registered : get route.dst s.clients ≡ some ida_client
  pub is_ida : ida_client.role ≡ ida
  pub fresh_id : get route.id s.pending ≡ none
  pub unique : IsUnique s.ownership

-- Only the agent is told, by an error response to its request with this code; the server is what expiry
-- has left of it, so the request is not pending and nothing went to the IDA.
pub record Refused (s : Server) (agent_id : String) (route : Route) (agent_ws : ℕ) (code : String)
    (r : Run (Unit {0})) : Type 0 where
  pub resp : Response
  pub not_ok : resp.ok ≡ false
  pub has_code : resp.code ≡ some code
  pub result : r ≡ record {
    outcome = returned tt;
    server = expire_ownerships s;
    outputs =
        sent agent_ws
          (response (record { id = route.id; src = s.bridge_id; dst = agent_id }) resp)
          true
        ∷ [];
  }

-- The policy's rejection, carried through to the agent.
module _ (s : Server) (agent_id : String) (route : Route) (o : Option Ownership)
    (code message : String) (trace : Fields) where
  rejected :
      (msg : EnvRequest) (h : Arrives s agent_id route)
      → get route.dst (expire_ownerships s).ownership ≡ o
      → policy_for route msg o ≡ ret (rejection msg code message trace)
      → Refused s agent_id route h.agent_client.ws code
          (run delivers_all (forward_to_ida agent_id route msg) s)
  unfolding forward_to_ida run expire_ownerships error_response valid get_ownership
  rejected (exec e) h current policy = record {
    resp = error_body code message (some trace) (exec_payload none none none none);
    not_ok = refl;
    has_code = refl;
    result =
        rw
          (
            h.ida_registered, h.is_ida, h.fresh_id, current, policy, h.agent_registered, run,
            forward_to_ida,
          )
          refl;
  }
  rejected (reset e) h current policy = record {
    resp = error_body code message (some trace) reset_payload;
    not_ok = refl;
    has_code = refl;
    result =
        rw
          (
            h.ida_registered, h.is_ida, h.fresh_id, current, policy, h.agent_registered, run,
            forward_to_ida,
          )
          refl;
  }

pub still_owned :
    (s : Server) (ida_id a : String) (until : ℕ)
    → IsUnique s.ownership
    → get ida_id s.ownership ≡ some (owned a until)
    → s.now < until
    → get ida_id (expire_ownerships s).ownership ≡ some (owned a until)
unfolding is_expired
still_owned s ida_id a until u e alive = ground (arith, get-expire s ida_id u)

-- A transition or a lock has no expiry.
still_blocked :
    (s : Server) (ida_id : String) (o : Ownership)
    → IsUnique s.ownership
    → get ida_id s.ownership ≡ some o
    → is_expired s.now o ≡ false
    → get ida_id (expire_ownerships s).ownership ≡ some o
still_blocked s ida_id o u e stays = ground (arith, get-expire s ida_id u)

-- While a session holds an IDA's exec environment and its lease has not run out, an exec or reset
-- request that names another session and is no takeover is refused with SESSION_CONFLICT: the
-- agent gets that error, nothing is sent to the IDA, no request becomes pending, and beyond what
-- expiry does the server is unchanged.
pub other_session-Refused :
    (s : Server) (agent_id : String) (route : Route) (msg : EnvRequest) (a b : String) (until : ℕ)
    (h : Arrives s agent_id route)
    → get route.dst s.ownership ≡ some (owned a until)
    → s.now < until
    → is_stateless msg ≡ false
    → requested_session msg ≡ some b
    → a ≢ b
    → is_takeover_request msg ≡ false
    → Refused s agent_id route h.agent_client.ws "SESSION_CONFLICT"
        (run delivers_all (forward_to_ida agent_id route msg) s)
unfolding policy_for stateful_policy owned_by_other
other_session-Refused s agent_id route msg a b until h e alive stateful eb ne nt =
    rejected s agent_id route (some (owned a until)) "SESSION_CONFLICT"
      "target exec environment is owned by another session" (other_session_trace route a b) msg h
      (still_owned s route.dst a until h.unique e alive) (ground (arith, same_iff a b))

-- In the same state a stateless exec request is refused with SESSION_CONFLICT too, whatever session
-- holds the environment.
pub stateless_exec-Refused :
    (s : Server) (agent_id : String) (route : Route) (msg : EnvRequest) (a : String) (until : ℕ)
    (h : Arrives s agent_id route)
    → get route.dst s.ownership ≡ some (owned a until)
    → s.now < until
    → is_stateless msg ≡ true
    → Refused s agent_id route h.agent_client.ws "SESSION_CONFLICT"
        (run delivers_all (forward_to_ida agent_id route msg) s)
unfolding policy_for stateless_policy
stateless_exec-Refused s agent_id route msg a until h e alive stateless =
    rejected s agent_id route (some (owned a until)) "SESSION_CONFLICT"
      "target exec environment is in stateful mode" (stateful_mode_trace route a) msg h
      (still_owned s route.dst a until h.unique e alive) (rw stateless refl)

-- The code of a refusal while the ownership is in transition or locked.
abbrev pub blocking_code : Ownership → Option String
blocking_code (owned a until) = none
blocking_code (takeover_pending t) = some "TAKEOVER_PENDING"
blocking_code (release_pending r) = some "RELEASE_PENDING"
blocking_code locked_unknown = some "SESSION_LOCKED"

-- While a takeover or a release is pending, or the ownership is locked, every exec and reset request
-- is refused with the code of that state, a takeover by another session and a request of the
-- owning session included: nothing is sent to the IDA and no request becomes pending.
pub blocked-Refused :
    (s : Server) (agent_id : String) (route : Route) (msg : EnvRequest) (o : Ownership)
    (code : String) (h : Arrives s agent_id route)
    → get route.dst s.ownership ≡ some o
    → blocking_code o ≡ some code
    → Refused s agent_id route h.agent_client.ws code
        (run delivers_all (forward_to_ida agent_id route msg) s)
unfolding policy_for is_expired
blocked-Refused s agent_id route msg (owned a until) code h e b = absurd (cc)
blocked-Refused s agent_id route msg (takeover_pending t) code h e b =
    let c : "TAKEOVER_PENDING" ≡ code = cc in
    rw (← c) (
      rejected s agent_id route (some (takeover_pending t)) "TAKEOVER_PENDING" _ _ msg h
        (still_blocked s route.dst (takeover_pending t) h.unique e refl) refl)
blocked-Refused s agent_id route msg (release_pending r) code h e b =
    let c : "RELEASE_PENDING" ≡ code = cc in
    rw (← c) (
      rejected s agent_id route (some (release_pending r)) "RELEASE_PENDING" _ _ msg h
        (still_blocked s route.dst (release_pending r) h.unique e refl) refl)
blocked-Refused s agent_id route msg locked_unknown code h e b =
    let c : "SESSION_LOCKED" ≡ code = cc in
    rw (← c) (
      rejected s agent_id route (some locked_unknown) "SESSION_LOCKED" _ _ msg h
        (still_blocked s route.dst locked_unknown h.unique e refl) refl)
