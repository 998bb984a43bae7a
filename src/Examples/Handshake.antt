-- ===== src/Examples/Handshake.antt =====
-- Connections at and after their first message (src/ida_bridge/server.py, `handler`).
use ida_bridge.Common.{◌≡◌, refl, true, none, some, [], ◌∷◌, text_key, differ}
use ida_bridge.Common.Dict.{get}
use ida_bridge.Protocol.Json.{null, Fields, end, field}
use ida_bridge.Protocol.Message.{Message, hello, protocol_error, request, quit_request, agent, ida}
use ida_bridge.Server.State.{Server, owned}
use ida_bridge.Server.Co.Run.{run, returned, sent, closed, delivers_all}
use ida_bridge.Server.Law.{IsWf}
use ida_bridge.Server.Disconnect.{ws_close_policy_violation, disconnect, meta_get}
use ida_bridge.Server.Hello.{register}
use ida_bridge.Server.Route.{type_trace}
use ida_bridge.Server.Handler.{text_frame, closed_ok, src_trace, message_type, handler}
use ida_bridge.Server.Handler.Handshake.{
  no_hello_no_effect, routed_request, spoofed_source_disconnected, bad_path_stays_registered,
  ending_unregisters_by_id,
}
use ida_bridge.Examples.Scene.{bridge_with, ida_client, route, parse_as, no_host}

abbrev quiet : Server
quiet = bridge_with [] (("ida", owned "a" 5000) ∷ [])

quiet-IsWf : IsWf quiet
unfolding get
quiet-IsWf = record {
  reserved = refl;
  tagged = λ req_id p e. absurd (cc);
  unique_pending = tt;
  unique_ownership = (refl, tt);
}

abbrev bye : Message
bye = request route (quit_request none)

no_hello_no_effect_example :
    run delivers_all (handler (parse_as bye) no_host 9 none (text_frame "{}" ∷ []) closed_ok) quiet
    ≡ (let error =
          protocol_error "HANDSHAKE_REQUIRED" "first message must be hello" (type_trace "quit") in
        record {
          outcome = returned tt;
          server = quiet;
          outputs = sent 9 error true ∷ closed 9 ws_close_policy_violation ∷ [];
        })
unfolding message_type
no_hello_no_effect_example =
    no_hello_no_effect (parse_as bye) no_host delivers_all quiet 9 "{}" [] closed_ok bye refl refl

spoofed_source_disconnected_example :
    run delivers_all
      (handler (parse_as bye) no_host 2 (some (agent, "other")) (text_frame "{}" ∷ []) closed_ok)
      quiet
    ≡ (let error =
          protocol_error "SRC_MISMATCH" "src does not match authenticated client_id"
            (src_trace "agent" "other") in
        let left = run delivers_all (disconnect "other") quiet in
        record {
          outcome = left.outcome;
          server = left.server;
          outputs = sent 2 error true ∷ closed 2 ws_close_policy_violation ∷ left.outputs;
        })
spoofed_source_disconnected_example =
    spoofed_source_disconnected (parse_as bye) no_host delivers_all quiet 2 "{}" [] closed_ok agent
      "other" route bye refl (routed_request (quit_request none)) (differ "agent" "other" refl)

abbrev no_path : Fields
no_path = field "idb_path" null end

bad_path_stays_registered_example :
    run delivers_all
      (handler (parse_as (hello ida "new" no_path)) no_host 9 none (text_frame "{}" ∷ []) closed_ok)
      quiet
    ≡ record {
      outcome = returned tt;
      server = register "new" (record { ws = 9; role = ida; meta = no_path }) quiet;
      outputs = closed 9 1011 ∷ [];
    }
bad_path_stays_registered_example =
    bad_path_stays_registered (parse_as (hello ida "new" no_path)) no_host delivers_all quiet 9 "{}"
      [] closed_ok "new" no_path refl (differ "new" "" refl) (differ "new" "bridge" refl)
      (unfold get in refl) (unfold meta_get in refl)

-- Connection 5 held the name "ida" before connection 7 did.
ending_unregisters_by_id_example :
    get "ida"
      (run delivers_all
        (handler (parse_as bye) no_host 5 (some (ida, "ida")) [] closed_ok)
        quiet).server.clients
    ≡ none
ending_unregisters_by_id_example =
    ending_unregisters_by_id (parse_as bye) no_host delivers_all quiet 5 "ida" ida_client quiet-IsWf
      (unfold get in refl) refl (unfold meta_get in refl)
