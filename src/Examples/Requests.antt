-- ===== src/Examples/Requests.antt =====
-- Exec and reset requests against each state of the ownership (src/ida_bridge/server.py).
use ida_bridge.Common.{
  ℕ, String, ◌≡◌, ◌≢◌, refl, Bool, true, false, Option, none, some, List, [], ◌∷◌, arith, ◌<◌,
  text_key, ◌==◌, differ,
}
use ida_bridge.Common.Dict.{Dict, get, pop}
use ida_bridge.Server.State.{Server, Ownership, owned, locked_unknown}
use ida_bridge.Server.Co.Run.{run, delivers_all}
use ida_bridge.Server.Ownership.{is_expired, expire_each, expire_ownerships}
use ida_bridge.Server.Policy.{exec, reset}
use ida_bridge.Server.Forward.{forward_to_ida}
use ida_bridge.Server.Forward.Refusals.{Arrives, Refused, other_session-Refused, blocked-Refused}
use ida_bridge.Server.Forward.Accepts.{sent_exec, exec_claims_free_ida, exec_keeps_environment}
use ida_bridge.Examples.Scene.{bridge_with, agent_client, ida_client, route, exec_of, reset_of}

arrives :
    (ownership : Dict String Ownership)
    → ida_bridge.Common.Dict.IsUnique ownership
    → Arrives (bridge_with [] ownership) "agent" route
unfolding get
arrives ownership u = record {
  agent_client = agent_client;
  ida_client = ida_client;
  agent_registered = refl;
  ida_registered = refl;
  is_ida = refl;
  fresh_id = refl;
  unique = u;
}

abbrev held_by_a : Server
held_by_a = bridge_with [] (("ida", owned "a" 5000) ∷ [])

abbrev held : Arrives held_by_a "agent" route
held = arrives (("ida", owned "a" 5000) ∷ []) (unfold get in (refl, tt))

other_session-Refused_example :
    Refused held_by_a "agent" route held.agent_client.ws "SESSION_CONFLICT"
      (run delivers_all (forward_to_ida "agent" route (exec (exec_of (some "b") true))) held_by_a)
other_session-Refused_example =
    other_session-Refused held_by_a "agent" route (exec (exec_of (some "b") true)) "a" "b" 5000 held
      (unfold get in refl) (ground arith) refl refl (differ "a" "b" refl) refl

abbrev locked : Server
locked = bridge_with [] (("ida", locked_unknown) ∷ [])

abbrev at_locked : Arrives locked "agent" route
at_locked = arrives (("ida", locked_unknown) ∷ []) (unfold get in (refl, tt))

blocked-Refused_example :
    Refused locked "agent" route at_locked.agent_client.ws "SESSION_LOCKED"
      (run delivers_all (forward_to_ida "agent" route (reset (reset_of "a" true false))) locked)
blocked-Refused_example =
    blocked-Refused locked "agent" route (reset (reset_of "a" true false)) locked_unknown
      "SESSION_LOCKED" at_locked (unfold get in refl) refl

-- A lease that ran out at 1000 leaves the IDA free.
abbrev run_out : Server
run_out = bridge_with [] (("ida", owned "a" 1000) ∷ [])

abbrev at_run_out : Arrives run_out "agent" route
at_run_out = arrives (("ida", owned "a" 1000) ∷ []) (unfold get in (refl, tt))

exec_claims_free_ida_example :
    run delivers_all (forward_to_ida "agent" route (exec (exec_of (some "b") true))) run_out
    ≡ sent_exec run_out "agent" route (exec_of (some "b") true) "b" true at_run_out.ida_client.ws 30
exec_claims_free_ida_example =
    exec_claims_free_ida run_out "agent" route (exec_of (some "b") true) "b" at_run_out
      (unfold get expire_ownerships expire_each is_expired pop in refl) refl refl

exec_keeps_environment_example :
    run delivers_all (forward_to_ida "agent" route (exec (exec_of (some "a") true))) held_by_a
    ≡ sent_exec held_by_a "agent" route (exec_of (some "a") true) "a" false held.ida_client.ws 30
exec_keeps_environment_example =
    exec_keeps_environment held_by_a "agent" route (exec_of (some "a") true) "a" 5000 held
      (unfold get in refl) (ground arith) refl refl
