-- ===== src/Conn/Receive.antt =====
-- src/ida_bridge/bridge_conn.py: the callbacks of the WS thread and its loop.
use ida_bridge.Common.{
  ℕ, ◌-◌, String, Bool, true, false, not, ◌&&◌, Option, none, some, List, [], ◌∷◌, ltb, ◌==◌,
  text_key, number_key, if◌then◌else◌,
}
use ida_bridge.Protocol.Message.{
  Message, hello, hello_ack, protocol_error, request, response, ida, Request, list_request,
  remote_request, Route,
}
use ida_bridge.Protocol.Response.{error_for_request}
use ida_bridge.Server.Handler.{Parsed, parsed, invalid}
use ida_bridge.Conn.State.{
  Conn, closes, Item, incoming, between, dialing, opened, mark_disconnected, put_nowait,
  fast_window, fast_retry, slow_retry,
}
use ida_bridge.Conn.Send.{Codec, Sent, send}

abbrev pub only : Conn → Sent
only c = record { conn = c; actions = []; raised = false }

-- `if self._ws is ws: self._ws = None`
unfoldable pub forget_ws : ℕ → Conn → Conn
forget_ws ws c = elim c.ws [
  | none ↦ c
  | some current ↦ if current == ws then record c { ws = none } else c
]

-- `_reject`: an error of the close is dropped.
unfoldable pub reject : ℕ → ℕ → ℕ → Conn → Sent
reject now ws status c = record {
  conn = forget_ws ws (mark_disconnected now c);
  actions = closes ws status ∷ [];
  raised = false;
}

-- `isinstance(msg, protocol.IdaRequest)`
abbrev pub is_ida_request : Request → Bool
is_ida_request (list_request kind) = false
is_ida_request (remote_request argv) = false
is_ida_request _ = true

module _ (k : Codec) (accepts : ℕ → Message → Bool) (now : ℕ) where
  unfoldable pub answer : Option Message → Conn → Sent
  answer none c = record { conn = c; actions = []; raised = true }
  answer (some error) c = send k accepts now error c

  -- After `put_nowait`: a request that the queue has no room for is answered.
  unfoldable pub queued : Option (List Item) → Route → Request → Conn → Sent
  unfolding answer
  queued (some inbox) route req c = only (record c { inbox = inbox })
  queued none route req c =
      answer (error_for_request route req "QUEUE_FULL" "request queue is full" none) c

  unfoldable pub enqueue : Route → Request → Conn → Sent
  unfolding queued
  enqueue route req c =
      queued (put_nowait c.setup.queue_max (incoming route req) c.inbox) route req c

  unfoldable pub on_open : Conn → Sent
  on_open c =
      send k accepts now (hello ida c.setup.client_id c.setup.meta)
        (record c { ready = false; phase = opened })

  unfoldable pub on_request : ℕ → Route → Request → Conn → Sent
  unfolding reject enqueue
  on_request ws route req c =
      if not c.ready
      then reject now ws 1008 c
      else if not (is_ida_request req)
      then reject now ws 1008 c
      else if not (route.dst == c.setup.client_id)
      then reject now ws 1008 c
      else enqueue route req c

  unfoldable pub on_parsed : ℕ → Parsed → Conn → Sent
  unfolding on_request reject
  on_parsed ws (invalid errors trace) c = reject now ws 1002 c
  on_parsed ws (parsed (hello_ack client_id bridge_id limit meta)) c =
      if c.ready
      then reject now ws 1008 c
      else only (record c { max_message_bytes = limit; ready = true })
  on_parsed ws (parsed (protocol_error code message trace)) c = reject now ws 1008 c
  on_parsed ws (parsed (request route req)) c = on_request ws route req c
  on_parsed ws (parsed (hello role client_id meta)) c = reject now ws 1008 c
  on_parsed ws (parsed (response route resp)) c = reject now ws 1008 c

  unfoldable pub on_message : (String → Parsed) → ℕ → String → Conn → Sent
  unfolding on_parsed
  on_message parse ws raw c = on_parsed ws (parse raw) c

-- `_on_error` and `_on_close`
abbrev pub on_close : ℕ → Conn → Conn
on_close = mark_disconnected

-- One pass of `_run_ws`: before `run_forever`, after it, and the sleep before the next.
unfoldable pub begin_attempt : ℕ → Conn → Conn
begin_attempt ws c = record c { ws = some ws; phase = dialing }

unfoldable pub end_attempt : ℕ → ℕ → Conn → Conn
end_attempt now ws c = forget_ws ws (record (mark_disconnected now c) { phase = between })

unfoldable pub sleep_of : ℕ → Conn → ℕ
sleep_of now c = if ltb (now - c.last_disconnect_at) fast_window then fast_retry else slow_retry

unfoldable pub announce : ℕ → Conn → Conn
announce sleep c =
    if not c.retry_announced
    then record c { retry_announced = true }
    else if not c.backoff_announced && sleep == slow_retry
    then record c { backoff_announced = true }
    else c
