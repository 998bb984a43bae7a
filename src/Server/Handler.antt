-- ===== src/Server/Handler.antt =====
-- src/ida_bridge/server.py: `handler`, one coroutine for each connection: the handshake and the checks
-- on every message.
pub mod Lawful
pub mod Handshake
use ida_bridge.Common.{
  ℕ, String, Bool, true, false, Option, none, some, List, [], ◌∷◌, ◌==◌, text_key, if◌then◌else◌,
}
use ida_bridge.Protocol.Json.{text, Fields, end, field}
use ida_bridge.Protocol.Message.{
  Message, hello, hello_ack, protocol_error, request, response, Role, Route, request_type,
  response_type, type_name, response_type_name,
}
use ida_bridge.Protocol.Classify.{ErrorDetail, classify_validation_error}
use ida_bridge.Server.Co.{
  Co, ret, done, modify, pause, catch, Exception, abort_connection, close_ws, ◌>>=◌, ◌>>◌,
}
use ida_bridge.Server.Disconnect.{
  protocol_fault, protocol_fault_with, ws_close_protocol_error, disconnect, mark_ping_timeout,
}
use ida_bridge.Server.Hello.{handle_hello}
use ida_bridge.Server.Bridge.{HostResult}
use ida_bridge.Server.Route.{
  Session, Next, continue, return, stop, type_trace, unsupported, on_request, on_response,
}

-- A websocket frame, and the ways in which a connection ends.
pub data Frame : Type 0 where
  binary : String → Frame
  text_frame : String → Frame

pub data Ending : Type 0 where
  closed_ok closed_error keepalive_timeout : Ending

-- What pydantic makes of a text, which is a parameter.
pub data Parsed : Type 0 where
  parsed : Message → Parsed
  invalid : List ErrorDetail → Fields → Parsed

abbrev pub src_trace : String → String → Option Fields
src_trace src client_id = some (field "src" (text src) (field "client_id" (text client_id) end))

src_mismatch : ℕ → String → Route → Co (Unit {0})
src_mismatch ws client_id route =
    protocol_fault ws "SRC_MISMATCH" "src does not match authenticated client_id"
      (src_trace route.src client_id)

unfoldable pub message_type : Message → String
message_type (hello role client_id meta) = "hello"
message_type (hello_ack client_id bridge_id limit meta) = "hello_ack"
message_type (protocol_error code message trace) = "error"
message_type (request route req) = type_name (request_type req)
message_type (response route resp) = response_type_name (response_type resp)

handshake_required : ℕ → Message → Co Next
unfolding type_trace message_type
handshake_required ws msg = stop (
    protocol_fault ws "HANDSHAKE_REQUIRED" "first message must be hello"
      (type_trace (message_type msg)))

invalid_text : ℕ → List ErrorDetail → Fields → Co Next
invalid_text ws errors trace =
    let (code, message) = classify_validation_error errors in
    stop (protocol_fault_with ws_close_protocol_error ws code message (some trace))

-- `finally`
leave : Session → Co (Unit {0})
leave none = done
leave (some (role, client_id)) = disconnect client_id

on_exception : ℕ → Exception → Co (Unit {0})
on_exception ws abort_connection = done
on_exception ws _ = close_ws ws 1011 "internal error"

on_ending : Session → Ending → Co (Unit {0})
on_ending (some (role, client_id)) keepalive_timeout = modify (mark_ping_timeout client_id)
on_ending _ _ = done

module _ (parse : String → Parsed) (host_cli : List String → HostResult) where
  on_message : ℕ → Session → Message → Co Next
  unfolding handshake_required on_request on_response unsupported type_trace src_mismatch
  on_message ws none (hello role client_id meta) = do
    session ← handle_hello ws role client_id meta
    ret (continue (some session))
  on_message ws none msg = handshake_required ws msg
  on_message ws (some (role, client_id)) (hello r c m) =
      stop (protocol_fault ws "DUPLICATE_HELLO" "hello already received" none)
  on_message ws (some (role, client_id)) (protocol_error code message trace) =
      stop (unsupported ws "protocol_error is bridge-only" none)
  on_message ws (some (role, client_id)) (hello_ack c b l m) =
      stop (unsupported ws "unsupported message type for state" (type_trace "hello_ack"))
  on_message ws (some (role, client_id)) (request route req) =
      if route.src == client_id
      then on_request host_cli ws role client_id route req
      else stop (src_mismatch ws client_id route)
  on_message ws (some (role, client_id)) (response route resp) =
      if route.src == client_id
      then on_response ws role client_id route resp
      else stop (src_mismatch ws client_id route)

  on_parsed : ℕ → Session → Parsed → Co Next
  unfolding on_message invalid_text
  on_parsed ws session (invalid errors trace) = invalid_text ws errors trace
  on_parsed ws session (parsed msg) = on_message ws session msg

  unfoldable pub on_frame : ℕ → Session → Frame → Co Next
  unfolding on_parsed
  on_frame ws session (binary frame_type) = stop (
      protocol_fault_with ws_close_protocol_error ws "UNSUPPORTED_FRAME"
        "binary websocket frames are not supported"
        (some (field "frame_type" (text frame_type) end)))
  on_frame ws session (text_frame raw) = on_parsed ws session (parse raw)

  -- A frame inside the `try`: an exception is answered, and ends the loop.
  guarded : ℕ → Session → Frame → Co Next
  unfolding on_frame on_exception
  guarded ws session frame = catch (on_frame ws session frame) (λ e. stop (on_exception ws e))

  -- The frames are those that come in before the connection ends.
  unfoldable pub handler : ℕ → Session → List Frame → Ending → Co (Unit {0})
  unfolding guarded leave on_ending
  handler ws session [] ending = pause (on_ending session ending >> leave session)
  handler ws session (frame ∷ frames) ending = pause (
      guarded ws session frame >>= λ next. elim next [
        | continue session' ↦ handler ws session' frames ending
        | return ↦ leave session
      ])
