-- ===== src/Server/Forward/Accepts.antt =====
-- Requests that ownership lets through (src/ida_bridge/server.py), with nothing running at the awaits.
use ida_bridge.Common.{
  ℕ, ◌≡◌, ◌≢◌, refl, ap, ◌∙◌, String, true, false, Option, none, some, [], ◌∷◌, arith, text_key,
  same_iff, same_self, ◌<◌, ◌+◌, ◌*◌, Bool, if◌then◌else◌, ◌==◌, number_key,
}
use ida_bridge.Common.Dict.{get, put}
use ida_bridge.Protocol.Message.{
  exec as exec_type, ExecRequest, ResetRequest, Route, request, exec_request,
}
use ida_bridge.Server.State.{Server, Pending, Ownership, owned, TakeoverPending, ReleasePending}
use ida_bridge.Server.Co.{ret, write}
use ida_bridge.Server.Co.Run.{Run, run, returned, sent, delivers_all}
use ida_bridge.Server.Ownership.{
  expire_ownerships, claim_owner, refresh_owner, enter_takeover, enter_release,
}
use ida_bridge.Server.Policy.{
  EnvRequest, exec, reset, to_request, ExecEnvPolicy, forward, get_ownership, policy_for,
  stateful_policy, unowned, owned_by_same, owned_by_other,
}
use ida_bridge.Server.Forward.{new_pending, add_pending, forward_to_ida, timeout_of}
use ida_bridge.Server.Forward.Refusals.{Arrives, still_owned}

-- The request is pending in `s'`, the server after the policy, and has gone to the IDA alone.
abbrev pub Forwarded : Server → String → Route → ℕ → ExecEnvPolicy → Run (Unit {0}) → Type 0
Forwarded s' agent_id route ida_ws policy r = r ≡ record {
  outcome = returned tt;
  server = add_pending route.id (new_pending agent_id route (to_request policy.msg) policy s') s';
  outputs = sent ida_ws (request route (to_request policy.msg)) true ∷ [];
}

module _ (s : Server) (agent_id : String) (route : Route) (o : Option Ownership) where
  accepted :
      (msg : EnvRequest) (g : Server → Server) (policy : ExecEnvPolicy)
      (h : Arrives s agent_id route)
      → get route.dst (expire_ownerships s).ownership ≡ o
      → policy_for route msg o ≡ write g (ret policy)
      → policy.reject ≡ none
      → Forwarded
          (g (expire_ownerships s))
          agent_id
          route
          h.ida_client.ws
          policy
          (run delivers_all (forward_to_ida agent_id route msg) s)
  unfolding forward_to_ida run expire_ownerships get_ownership
  accepted msg g policy h current e no_reject =
      rw (h.ida_registered, h.is_ida, h.fresh_id, current, e, no_reject, run, forward_to_ida) refl

-- An IDA that no session holds (its entry is absent or has run out).
abbrev pub IsFree : String → Server → Type 0
IsFree ida_id s = get ida_id (expire_ownerships s).ownership ≡ none

-- The policies of the four requests that ownership lets through.
abbrev pub claiming : ExecRequest → ExecEnvPolicy
claiming e = record (forward (exec (record e { reset_env = true }))) { claimed_owner = true }

abbrev pub refreshing : ExecRequest → ExecEnvPolicy
refreshing e = forward (exec (record e { reset_env = false }))

abbrev pub taking_over : ResetRequest → TakeoverPending → ExecEnvPolicy
taking_over r t = record (forward (reset r)) { takeover = some t }

abbrev pub releasing : ResetRequest → ReleasePending → ExecEnvPolicy
releasing r q = record (forward (reset r)) { release = some q }

abbrev pub transfer : String → ResetRequest → Route → TakeoverPending
transfer a r route = record { from_session_id = a; to_session_id = r.session_id; req_id = route.id }

abbrev pub ending : ResetRequest → Route → ReleasePending
ending r route = record { session_id = r.session_id; req_id = route.id }

-- The pending entry of an exec of the agent: it waits for the IDA as long as the request says, or the
-- server's default, where 0 is for ever; no transition of the ownership hangs on it.
abbrev pub wait_of : Option ℕ → ℕ → ℕ
wait_of none default_s = default_s
wait_of (some t) default_s = t

abbrev pub awaited_exec : String → Route → ℕ → Server → Pending
awaited_exec agent_id route wait_s s = record {
  agent_id = agent_id;
  ida_id = route.dst;
  req_type = exec_type;
  deadline = if wait_s == 0 then none else some (s.now + wait_s * 1000);
  timeout_s = wait_s;
  takeover = none;
  release = none;
}

-- The exec has gone to the IDA and nowhere else with `reset_env` as given; its session owns the
-- environment with a lease that runs for the server's time to live from now, and the agent's request is
-- pending.
abbrev pub sent_exec :
    Server → String → Route → ExecRequest → String → Bool → ℕ → ℕ → Run (Unit {0})
sent_exec s agent_id route e session_id resets ida_ws wait_s = record {
  outcome = returned tt;
  server = record s {
    ownership =
        put route.dst (owned session_id (s.now + s.stateful_ttl)) (expire_ownerships s).ownership;
    pending = put route.id (awaited_exec agent_id route wait_s s) s.pending;
  };
  outputs = sent ida_ws (request route (exec_request (record e { reset_env = resets }))) true ∷ [];
}

timeout_of-wait_of : (t : Option ℕ) (s : Server) → timeout_of t s ≡ wait_of t s.default_timeout_s
timeout_of-wait_of none s = refl
timeout_of-wait_of (some n) s = refl

-- A persistent exec for an IDA that no session holds is forwarded with `reset_env` forced to true:
-- its session becomes the owner with a lease from now, and the request is pending with its agent
-- and its target.
pub exec_claims_free_ida :
    (s : Server) (agent_id : String) (route : Route) (e : ExecRequest) (b : String)
    (h : Arrives s agent_id route)
    → IsFree route.dst s
    → e.persist ≡ true
    → e.session_id ≡ some b
    → run delivers_all (forward_to_ida agent_id route (exec e)) s
      ≡ sent_exec s agent_id route e b true h.ida_client.ws
          (wait_of e.timeout_s s.default_timeout_s)
unfolding policy_for stateful_policy unowned claim_owner add_pending expire_ownerships
exec_claims_free_ida s agent_id route e b h free persists session =
    accepted s agent_id route none (exec e) (claim_owner route.dst b) (claiming e) h free
      (simp (persists, session)) refl
    ∙ ap (sent_exec s agent_id route e b true h.ida_client.ws)
        (timeout_of-wait_of e.timeout_s (claim_owner route.dst b (expire_ownerships s)))

-- An exec of the session that holds the IDA is forwarded with `reset_env` cleared, whatever it asked
-- for, and renews the lease from now.
pub exec_keeps_environment :
    (s : Server) (agent_id : String) (route : Route) (e : ExecRequest) (b : String) (until : ℕ)
    (h : Arrives s agent_id route)
    → get route.dst s.ownership ≡ some (owned b until)
    → s.now < until
    → e.persist ≡ true
    → e.session_id ≡ some b
    → run delivers_all (forward_to_ida agent_id route (exec e)) s
      ≡ sent_exec s agent_id route e b false h.ida_client.ws
          (wait_of e.timeout_s s.default_timeout_s)
unfolding policy_for stateful_policy owned_by_same refresh_owner add_pending expire_ownerships
exec_keeps_environment s agent_id route e b until h o alive persists session =
    accepted s agent_id route (some (owned b until)) (exec e) (refresh_owner route.dst b)
      (refreshing e) h (still_owned s route.dst b until h.unique o alive)
      (simp (persists, session, same_self b)) refl
    ∙ ap (sent_exec s agent_id route e b false h.ida_client.ws)
        (timeout_of-wait_of e.timeout_s (refresh_owner route.dst b (expire_ownerships s)))

-- A takeover by another session is forwarded; until the IDA answers the environment belongs to
-- neither session, and the pending request records the transfer.
pub takeover_begins :
    (s : Server) (agent_id : String) (route : Route) (r : ResetRequest) (a : String) (until : ℕ)
    (h : Arrives s agent_id route)
    → get route.dst s.ownership ≡ some (owned a until)
    → s.now < until
    → a ≢ r.session_id
    → r.takeover ≡ true
    → Forwarded
        (enter_takeover route.dst (transfer a r route) (expire_ownerships s))
        agent_id
        route
        h.ida_client.ws
        (taking_over r (transfer a r route))
        (run delivers_all (forward_to_ida agent_id route (reset r)) s)
unfolding policy_for stateful_policy owned_by_other
takeover_begins s agent_id route r a until h o alive other takes =
    accepted s agent_id route (some (owned a until)) (reset r)
      (enter_takeover route.dst (transfer a r route)) (taking_over r (transfer a r route)) h
      (still_owned s route.dst a until h.unique o alive) (ground (arith, same_iff a r.session_id))
      refl

-- A release by the owner is forwarded, and until the IDA answers the environment is in release.
pub release_begins :
    (s : Server) (agent_id : String) (route : Route) (r : ResetRequest) (until : ℕ)
    (h : Arrives s agent_id route)
    → get route.dst s.ownership ≡ some (owned r.session_id until)
    → s.now < until
    → r.release ≡ true
    → Forwarded
        (enter_release route.dst (ending r route) (expire_ownerships s))
        agent_id
        route
        h.ida_client.ws
        (releasing r (ending r route))
        (run delivers_all (forward_to_ida agent_id route (reset r)) s)
unfolding policy_for stateful_policy owned_by_same
release_begins s agent_id route r until h o alive releases =
    accepted s agent_id route (some (owned r.session_id until)) (reset r)
      (enter_release route.dst (ending r route)) (releasing r (ending r route)) h
      (still_owned s route.dst r.session_id until h.unique o alive)
      (rw (same_self r.session_id, releases) refl) refl
