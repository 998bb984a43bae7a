-- ===== src/Server/Handler/Handshake.antt =====
-- What the connection handler lets a peer do (src/ida_bridge/server.py, `handler`), with nothing running
-- at its awaits.
use ida_bridge.Common.{
  ℕ, String, ◌≡◌, ◌≢◌, refl, Bool, true, false, none, some, List, [], ◌∷◌, arith, ◌==◌, text_key,
  number_key, same_iff, same_self,
}
use ida_bridge.Common.Dict.{get, get-pop}
use ida_bridge.Protocol.Json.{Fields}
use ida_bridge.Protocol.Message.{
  Message, hello, hello_ack, protocol_error, request, response, Role, ida, Route, Request, Response,
}
use ida_bridge.Server.State.{Server, Client}
use ida_bridge.Server.Co.{catch}
use ida_bridge.Server.Co.Run.{run, returned, sent, closed}
use ida_bridge.Server.Disconnect.{
  protocol_fault_with, ws_close_policy_violation, disconnect, meta_get, is_path,
}
use ida_bridge.Server.Disconnect.Exact.{ida_disconnect_exact}
use ida_bridge.Server.Law.{IsWf}
use ida_bridge.Server.Hello.{register, handle_hello, greet}
use ida_bridge.Server.Bridge.{HostResult}
use ida_bridge.Server.Route.{type_trace}
use ida_bridge.Server.Handler.{
  Frame, text_frame, Ending, closed_ok, on_ending, Parsed, parsed, src_trace, src_mismatch,
  message_type, handshake_required, on_message, on_parsed, on_frame, leave, guarded, on_exception,
  handler,
}

abbrev pub is_hello : Message → Bool
is_hello (hello role client_id meta) = true
is_hello _ = false

-- The messages that carry a route.
pub data Routed (route : Route) : Message → Type 0 where
  routed_request : (req : Request) → Routed route (request route req)
  routed_response : (resp : Response) → Routed route (response route resp)

module _ (parse : String → Parsed) (host_cli : List String → HostResult)
    (delivers : ℕ → Message → Bool) (s : Server) (ws : ℕ) (raw : String) (frames : List Frame)
    (ending : Ending) where
  -- Before its hello a connection can do nothing: if its first message is another one, it gets
  -- HANDSHAKE_REQUIRED and is closed, no later frame is looked at, and the server is unchanged.
  pub no_hello_no_effect :
      (msg : Message)
      → parse raw ≡ parsed msg
      → is_hello msg ≡ false
      → run delivers (handler parse host_cli ws none (text_frame raw ∷ frames) ending) s ≡ (
          let error =
            protocol_error "HANDSHAKE_REQUIRED" "first message must be hello"
              (type_trace (message_type msg)) in
          record {
            outcome = returned tt;
            server = s;
            outputs = sent ws error (delivers ws error) ∷ closed ws ws_close_policy_violation ∷ [];
          })
  unfolding handler guarded on_frame on_parsed on_message handshake_required protocol_fault_with
      leave run catch
  no_hello_no_effect (hello role client_id meta) e h = absurd (cc)
  no_hello_no_effect (hello_ack c b l m) e h = rw (e, run) refl
  no_hello_no_effect (protocol_error c m t) e h = rw (e, run) refl
  no_hello_no_effect (request route req) e h = rw (e, run) refl
  no_hello_no_effect (response route resp) e h = rw (e, run) refl

  -- A registered connection that sends a request or a response in another's name gets SRC_MISMATCH,
  -- is closed and disconnected; the message itself has no effect, and no later frame is looked at.
  pub spoofed_source_disconnected :
      (role : Role) (client_id : String) (route : Route) (msg : Message)
      → parse raw ≡ parsed msg
      → Routed route msg
      → route.src ≢ client_id
      → run delivers
          (handler parse host_cli ws (some (role, client_id)) (text_frame raw ∷ frames) ending)
          s
        ≡ (let error =
              protocol_error "SRC_MISMATCH" "src does not match authenticated client_id"
                (src_trace route.src client_id) in
            let left = run delivers (disconnect client_id) s in
            record {
              outcome = left.outcome;
              server = left.server;
              outputs =
                  sent ws error (delivers ws error)
                  ∷ closed ws ws_close_policy_violation
                  ∷ left.outputs;
            })
  unfolding handler guarded on_frame on_parsed on_message src_mismatch protocol_fault_with leave run
      catch
  spoofed_source_disconnected role client_id route msg e (routed_request req) spoofed =
      let differ : (route.src == client_id) ≡ false =
        ground (arith, same_iff route.src client_id) in
      rw (e, differ, run) refl
  spoofed_source_disconnected role client_id route msg e (routed_response resp) spoofed =
      let differ : (route.src == client_id) ≡ false =
        ground (arith, same_iff route.src client_id) in
      rw (e, differ, run) refl

  -- An IDA whose hello has an `idb_path` that is no string is registered and its connection closed:
  -- the handler does not know the id yet, so it does not unregister it.
  pub bad_path_stays_registered :
      (client_id : String) (meta : Fields)
      → parse raw ≡ parsed (hello ida client_id meta)
      → client_id ≢ ""
      → client_id ≢ s.bridge_id
      → get client_id s.clients ≡ none
      → is_path (meta_get "idb_path" meta) ≡ false
      → run delivers (handler parse host_cli ws none (text_frame raw ∷ frames) ending) s ≡ record {
        outcome = returned tt;
        server = register client_id (record { ws = ws; role = ida; meta = meta }) s;
        outputs = closed ws 1011 ∷ [];
      }
  unfolding handler guarded on_frame on_parsed on_message handle_hello greet on_exception leave run
      catch
  bad_path_stays_registered client_id meta e named free fresh no_path =
      let e1 : (client_id == "") ≡ false = ground (arith, same_iff client_id "") in
      let e2 : (client_id == s.bridge_id) ≡ false =
        ground (arith, same_iff client_id s.bridge_id) in
      rw (e, e1, e2, fresh, no_path, run) refl

-- When the connection of an IDA to a well-formed server ends, its handler unregisters whoever is registered under its id,
-- also when that is another connection, which registered since. (The
-- `idb_path` of the client that is registered is a string or absent.)
pub ending_unregisters_by_id :
    (parse : String → Parsed) (host_cli : List String → HostResult) (delivers : ℕ → Message → Bool)
    (s : Server) (ws : ℕ) (client_id : String) (client : Client)
    → IsWf s
    → get client_id s.clients ≡ some client
    → client.role ≡ ida
    → is_path (meta_get "idb_path" client.meta) ≡ true
    → get client_id
        (run delivers
          (handler parse host_cli ws (some (ida, client_id)) [] closed_ok)
          s).server.clients
      ≡ none
unfolding handler leave on_ending run
ending_unregisters_by_id parse host_cli delivers s ws client_id client wf registered is_ida path =
    rw (ida_disconnect_exact delivers s client_id client wf registered is_ida path)
      (simp (get-pop, same_self client_id))
