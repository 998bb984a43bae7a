-- ===== src/Examples/Attached.antt =====
-- An IDA that is attached to the bridge (src/ida_bridge/bridge_conn.py).
use ida_bridge.Common.{
  ℕ, ◌≡◌, refl, Bool, true, false, none, some, [], ◌∷◌, ◌++◌, arith, if◌then◌else◌,
}
use ida_bridge.Protocol.Json.{end}
use ida_bridge.Protocol.Message.{Message, Response, Route, response, quit_request}
use ida_bridge.Conn.State.{Conn, Setup, incoming, opened, new_conn, sends, min_message_bytes}
use ida_bridge.Conn.Send.{Codec, outgoing}
use ida_bridge.Conn.Answers.{Answered, IsError, response-Answered}
use ida_bridge.Conn.Receive.{on_request, only}
use ida_bridge.Conn.Loop.{Threads}
use ida_bridge.Conn.Requests.{reversed, has_room, request_kept_or_answered}
use ida_bridge.Examples.Scene.{route, back, reset_done}

abbrev setup : Setup
setup = record { client_id = "ida"; meta = end; queue_max = 1 }

-- Every message has 100 bytes, within the limit.
abbrev codec : Codec
codec = record {
  dump = λ msg. some 100;
  describe = λ msg. "ValueError";
  bad_fields = λ msg. [];
  too_large = λ size limit. "too large";
}

abbrev takes_all : ℕ → Message → Bool
takes_all ws msg = true

abbrev busy : Conn
busy = record (new_conn setup 0) {
  phase = opened;
  ws = some 3;
  ready = true;
  inbox = incoming route (quit_request none) ∷ [];
  max_message_bytes = 20000;
}

abbrev later : Route
later = record { id = "r2"; src = "agent"; dst = "ida" }

-- A send of the owner fails between the tests of a request and its `put_nowait`: the request stays in the
-- new queue, although the connection is lost.
abbrev stale : Threads
stale = record {
  conn = record (new_conn setup 0) {
    phase = opened;
    ws = some 3;
    inbox = incoming route (quit_request none) ∷ [];
    max_message_bytes = min_message_bytes;
    last_disconnect_at = 9;
  };
  held = none;
}

response-Answered_example :
    Answered codec 20000 back reset_done (outgoing codec 20000 (response back reset_done))
response-Answered_example = response-Answered codec 20000 back reset_done tt (record {
  serialize = λ code message error e. (100, refl);
  small = λ size n error e d. ground arith;
})

request_kept_or_answered_example :
    (r : Response) × IsError r "QUEUE_FULL"
    × (on_request codec takes_all 9 3 later (quit_request none) busy ≡ (
        if has_room busy
        then only (record busy { inbox = busy.inbox ++ incoming later (quit_request none) ∷ [] })
        else record {
          conn = busy;
          actions = sends 3 (response (reversed later) r) ∷ [];
          raised = false;
        }))
request_kept_or_answered_example =
    request_kept_or_answered codec takes_all 9 3 later (quit_request none) busy refl refl refl refl
      (λ m. refl) (λ r e. (100, refl, ground arith))
