-- ===== src/Examples/Leaving.antt =====
-- Clients that disconnect with a request in flight (src/ida_bridge/server.py, `_disconnect`).
use ida_bridge.Common.{String, ◌≡◌, refl, none, [], ◌∷◌, text_key}
use ida_bridge.Common.Dict.{Dict, get, pop, has}
use ida_bridge.Protocol.Message.{exec}
use ida_bridge.Server.State.{Server, Pending, owned}
use ida_bridge.Server.Co.Run.{run, returned, delivers_all}
use ida_bridge.Server.Law.{IsWf}
use ida_bridge.Server.Disconnect.{disconnect, meta_get}
use ida_bridge.Server.Disconnect.Leaves.{drop_if, is_waiting_for, failures}
use ida_bridge.Server.Disconnect.Exact.{
  still_awaited, without, fault_code, fault_message, ida_disconnect_exact, agent_disconnect_exact,
}
use ida_bridge.Examples.Scene.{bridge_with, request_of, agent_client, ida_client, in_flight-IsWf}

abbrev waiting : Pending
waiting = request_of exec none none

abbrev busy : Server
busy = bridge_with (("r1", waiting) ∷ []) (("ida", owned "a" 5000) ∷ [])

busy-IsWf : IsWf busy
busy-IsWf = in_flight-IsWf waiting (owned "a" 5000) (tt, tt)

ida_disconnect_exact_example : run delivers_all (disconnect "ida") busy ≡ (
    let pinged = has "ida" busy.ping_timeouts in
    record {
      outcome = returned tt;
      server = record (without "ida" 7 busy) {
        ownership = pop "ida" busy.ownership;
        pending = drop_if (is_waiting_for "ida") busy.pending busy.pending;
      };
      outputs =
          failures delivers_all "ida"
            (fault_code pinged)
            (fault_message pinged)
            (pop "ida" busy.clients)
            "bridge"
            busy.pending;
    })
ida_disconnect_exact_example =
    ida_disconnect_exact delivers_all busy "ida" ida_client busy-IsWf (unfold get in refl) refl
      (unfold meta_get in refl)

agent_disconnect_exact_example :
    (pending : Dict String Pending) × (run delivers_all (disconnect "agent") busy ≡ record {
      outcome = returned tt;
      server = record (without "agent" 1 busy) { pending = pending };
      outputs = [];
    })
    × ((req_id : String) → get req_id pending ≡ still_awaited "agent" (get req_id busy.pending))
agent_disconnect_exact_example =
    agent_disconnect_exact delivers_all busy "agent" agent_client busy-IsWf (unfold get in refl)
      refl
