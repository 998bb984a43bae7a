-- ===== src/Server/Handler/Lawful.antt =====
-- A connection's handler (src/ida_bridge/server.py) keeps the law of the server from its first frame to
-- its end, whatever other handlers do at its awaits.
use ida_bridge.Common.{ℕ, String, none, some, List, [], ◌∷◌, ◌==◌, text_key}
use ida_bridge.Protocol.Json.{Fields}
use ida_bridge.Protocol.Message.{
  Message, hello, hello_ack, protocol_error, request, response, Route,
}
use ida_bridge.Protocol.Classify.{ErrorDetail}
use ida_bridge.Server.State.{Server}
use ida_bridge.Server.Co.{Co, done, Exception, abort_connection}
use ida_bridge.Server.Co.Within.{
  Within, Always, Within-ret, Within-write, Within-close, Within-pause, Within-if, Within-bind,
  Within-catch,
}
use ida_bridge.Server.Law.{Lawful, registry_law}
use ida_bridge.Server.Disconnect.{mark_ping_timeout}
use ida_bridge.Server.Disconnect.Lawful.{
  IsLawful, done-IsLawful, then-IsLawful, protocol_fault_with-IsLawful, disconnect-IsLawful,
}
use ida_bridge.Server.Hello.{handle_hello}
use ida_bridge.Server.Hello.Lawful.{Returns, handle_hello-Returns}
use ida_bridge.Server.Bridge.{HostResult}
use ida_bridge.Server.Route.{Session, Next, continue, return}
use ida_bridge.Server.Route.Lawful.{
  stop-Returns, unsupported-IsLawful, on_request-Returns, on_response-Returns,
}
use ida_bridge.Server.Handler.{
  Frame, binary, text_frame, Ending, keepalive_timeout, Parsed, parsed, invalid, src_mismatch,
  handshake_required, on_message, invalid_text, on_parsed, on_frame, leave, on_exception, on_ending,
  guarded, handler,
}

src_mismatch-IsLawful :
    (ws : ℕ) (client_id : String) (route : Route) → IsLawful (src_mismatch ws client_id route)
unfolding src_mismatch
src_mismatch-IsLawful ws client_id route = protocol_fault_with-IsLawful _ ws _ _ _

handshake_required-Returns : (ws : ℕ) (msg : Message) → Returns (handshake_required ws msg)
unfolding handshake_required
handshake_required-Returns ws msg = stop-Returns _ (protocol_fault_with-IsLawful _ ws _ _ _)

leave-IsLawful : (session : Session) → IsLawful (leave session)
unfolding leave
leave-IsLawful none = done-IsLawful
leave-IsLawful (some (role, client_id)) = disconnect-IsLawful client_id

close-IsLawful : (ws n : ℕ) (reason : String) → IsLawful (Co.close ws n reason done)
close-IsLawful ws n reason s = Within-close _ _ _ _ s (λ s'. done-IsLawful s')

on_exception-IsLawful : (ws : ℕ) (e : Exception) → IsLawful (on_exception ws e)
unfolding on_exception
on_exception-IsLawful ws abort_connection = done-IsLawful
on_exception-IsLawful ws _ = close-IsLawful ws _ _

mark-IsLawful : (client_id : String) → IsLawful (Co.write (mark_ping_timeout client_id) done)
unfolding mark_ping_timeout
mark-IsLawful client_id s =
    Within-write _ _ s (registry_law s s.clients s.by_ws _ (λ h. h)) (done-IsLawful _)

on_ending-IsLawful : (session : Session) (ending : Ending) → IsLawful (on_ending session ending)
unfolding on_ending
on_ending-IsLawful (some (role, client_id)) keepalive_timeout = mark-IsLawful client_id
on_ending-IsLawful none _ = done-IsLawful
on_ending-IsLawful (some (role, client_id)) _ = done-IsLawful

invalid_text-Returns :
    (ws : ℕ) (errors : List ErrorDetail) (trace : Fields) → Returns (invalid_text ws errors trace)
unfolding invalid_text
invalid_text-Returns ws errors trace = stop-Returns _ (protocol_fault_with-IsLawful _ ws _ _ _)

Within-next :
    (next : Next) (f : Session → Co (Unit {0})) (m : Co (Unit {0})) (s : Server)
    → ((session : Session) → Within Lawful Always (f session) s)
    → Within Lawful Always m s
    → Within Lawful Always (elim next [ continue session ↦ f session | return ↦ m ]) s
Within-next (continue session) f m s h k = h session
Within-next return f m s h k = k

module _ (parse : String → Parsed) (host_cli : List String → HostResult) where
  on_message-Returns :
      (ws : ℕ) (session : Session) (msg : Message)
      → Returns (on_message parse host_cli ws session msg)
  unfolding on_message
  on_message-Returns ws none (hello role client_id meta) s =
      Within-bind (handle_hello ws role client_id meta) _ s
        (handle_hello-Returns ws role client_id meta s) (λ session s' _. Within-ret _ s' tt)
  on_message-Returns ws none msg s = handshake_required-Returns ws msg s
  on_message-Returns ws (some (role, client_id)) (hello r c m) s =
      stop-Returns _ (protocol_fault_with-IsLawful _ ws _ _ _) s
  on_message-Returns ws (some (role, client_id)) (protocol_error c m t) s =
      stop-Returns _ (unsupported-IsLawful ws _ _) s
  on_message-Returns ws (some (role, client_id)) (hello_ack c b l m) s =
      stop-Returns _ (unsupported-IsLawful ws _ _) s
  on_message-Returns ws (some (role, client_id)) (request route req) s =
      Within-if (route.src == client_id) _ _ s
        (λ _. on_request-Returns host_cli ws role client_id route req s)
        (λ _. stop-Returns _ (src_mismatch-IsLawful ws client_id route) s)
  on_message-Returns ws (some (role, client_id)) (response route resp) s =
      Within-if (route.src == client_id) _ _ s
        (λ _. on_response-Returns ws role client_id route resp s)
        (λ _. stop-Returns _ (src_mismatch-IsLawful ws client_id route) s)

  on_parsed-Returns :
      (ws : ℕ) (session : Session) (p : Parsed) → Returns (on_parsed parse host_cli ws session p)
  unfolding on_parsed
  on_parsed-Returns ws session (parsed msg) = on_message-Returns ws session msg
  on_parsed-Returns ws session (invalid errors trace) = invalid_text-Returns ws errors trace

  on_frame-Returns :
      (ws : ℕ) (session : Session) (frame : Frame)
      → Returns (on_frame parse host_cli ws session frame)
  unfolding on_frame
  on_frame-Returns ws session (binary t) = stop-Returns _ (protocol_fault_with-IsLawful _ ws _ _ _)
  on_frame-Returns ws session (text_frame raw) = on_parsed-Returns ws session (parse raw)

  guarded-Returns :
      (ws : ℕ) (session : Session) (frame : Frame)
      → Returns (guarded parse host_cli ws session frame)
  unfolding guarded
  guarded-Returns ws session frame s =
      Within-catch (on_frame parse host_cli ws session frame) _ s
        (on_frame-Returns ws session frame s)
        (λ e s'. stop-Returns _ (on_exception-IsLawful ws e) s')

  -- Every write of a connection's handler is lawful: whatever frames come in, however the connection
  -- ends, and whatever other handlers do while it waits, the ownership of each IDA changes only by the
  -- moves of the state machine, and the well-formedness of the server is kept.
  pub handler-IsLawful :
      (ws : ℕ) (session : Session) (frames : List Frame) (ending : Ending)
      → IsLawful (handler parse host_cli ws session frames ending)
  unfolding handler
  handler-IsLawful ws session [] ending s =
      Within-pause _ s
        (then-IsLawful _ _ (on_ending-IsLawful session ending) (leave-IsLawful session))
  handler-IsLawful ws session (frame ∷ frames) ending s = Within-pause _ s λ s'.
      Within-bind (guarded parse host_cli ws session frame) _ s'
        (guarded-Returns ws session frame s')
        (λ next s'' _.
          Within-next next _ _ s'' (λ session'. handler-IsLawful ws session' frames ending s'')
            (leave-IsLawful session s''))
