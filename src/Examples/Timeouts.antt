-- ===== src/Examples/Timeouts.antt =====
-- A round of the timeout loop (src/ida_bridge/server.py) with one request due.
use ida_bridge.Common.{◌≡◌, refl, none, some, [], ◌∷◌, text_key}
use ida_bridge.Common.Dict.{get}
use ida_bridge.Protocol.Message.{reset}
use ida_bridge.Server.State.{Server, takeover_pending, locked_unknown, Pending}
use ida_bridge.Server.Co.Run.{run, returned, delivers_all}
use ida_bridge.Server.Ownership.{expire_ownerships}
use ida_bridge.Server.Law.{IsWf}
use ida_bridge.Server.Timeouts.{is_due, timeout_round}
use ida_bridge.Server.Timeouts.Round.{with_timeouts, late_in, notices, timeout_round_exact}
use ida_bridge.Server.Timeouts.Settles.{timed_out_transition_locks}
use ida_bridge.Examples.Scene.{bridge_with, request_of, taking, in_flight-IsWf}

abbrev waiting : Pending
waiting = request_of reset (some taking) none

abbrev late : Server
late = bridge_with (("r1", waiting) ∷ []) (("ida", takeover_pending taking) ∷ [])

late-IsWf : IsWf late
late-IsWf = in_flight-IsWf waiting (takeover_pending taking) (refl, tt)

timeout_round_exact_example : run delivers_all timeout_round late ≡ record {
  outcome = returned tt;
  server = with_timeouts (late_in late) (expire_ownerships late);
  outputs = notices delivers_all late.clients "bridge" (late_in late);
}
timeout_round_exact_example = timeout_round_exact delivers_all late late-IsWf

timed_out_transition_locks_example :
    get "ida" (run delivers_all timeout_round late).server.ownership ≡ some locked_unknown
timed_out_transition_locks_example =
    timed_out_transition_locks delivers_all late "r1" waiting (takeover_pending taking) late-IsWf
      (unfold get in refl) (unfold is_due in refl) refl (unfold get in refl)
