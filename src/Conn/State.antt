-- ===== src/Conn/State.antt =====
-- src/ida_bridge/bridge_conn.py: the state of a `BridgeConn`. A `WebSocketApp` is known by a number,
-- times are milliseconds of `time.monotonic()`. A method is modelled as it runs when no other thread runs
-- in between; Loop.antt has the single accesses of the threads.
use ida_bridge.Common.{
  ℕ, ◌*◌, String, Bool, true, false, Option, none, some, List, [], ◌∷◌, ◌++◌, ltb, length, ◌==◌,
  number_key, ◌&&◌, ◌||◌, not, if◌then◌else◌,
}
use ida_bridge.Protocol.Json.{Fields}
use ida_bridge.Protocol.Message.{Message, Route, Request}

-- What the inbox holds: a request for this IDA, or the sentinel that wakes a waiting `recv`.
pub data Item : Type 0 where
  incoming : Route → Request → Item
  sentinel : Item

-- Where the WS thread is in its attempt: between attempts, before `on_open`, after it.
pub data Phase : Type 0 where
  between dialing opened : Phase

pub record Setup : Type 0 where
  pub client_id : String
  pub meta : Fields
  pub queue_max : ℕ

pub record Conn : Type 0 where
  pub setup : Setup
  pub phase : Phase
  pub ws : Option ℕ
  pub ready : Bool
  pub stopped : Bool
  pub inbox : List Item
  pub max_message_bytes : ℕ
  pub last_disconnect_at : ℕ
  pub retry_announced : Bool
  pub backoff_announced : Bool

-- What a method does to the websocket.
pub data Action : Type 0 where
  sends : ℕ → Message → Action
  closes : ℕ → ℕ → Action
  aborts : ℕ → Action

abbrev pub min_message_bytes : ℕ
min_message_bytes = 16 * 1024

abbrev pub fast_retry : ℕ
fast_retry = 5000

abbrev pub fast_window : ℕ
fast_window = 120000

abbrev pub slow_retry : ℕ
slow_retry = 60000

-- `__init__`
abbrev pub new_conn : Setup → ℕ → Conn
new_conn setup now = record {
  setup = setup;
  phase = between;
  ws = none;
  ready = false;
  stopped = false;
  inbox = [];
  max_message_bytes = min_message_bytes;
  last_disconnect_at = now;
  retry_announced = false;
  backoff_announced = false;
}

-- `put_nowait`: a `queue.Queue` of size 0 has no bound. `none` is `queue.Full`.
unfoldable pub put_nowait : ℕ → Item → List Item → Option (List Item)
put_nowait maxsize item q =
    if maxsize == 0 || ltb (length q) maxsize then some (q ++ item ∷ []) else none

-- `q.get_nowait()`, whose `queue.Empty` is dropped.
abbrev pub drop_first : List Item → List Item
drop_first [] = []
drop_first (item ∷ rest) = rest

abbrev pub or_else : Option (List Item) → List Item → List Item
or_else (some q) q' = q
or_else none q' = q'

-- `shutdown_queue` after the drain of `immediate=True`: a full queue loses its first item for the sentinel.
unfoldable pub wake : ℕ → List Item → List Item
wake maxsize q =
    or_else (put_nowait maxsize sentinel q)
      (or_else (put_nowait maxsize sentinel (drop_first q)) (drop_first q))

unfoldable pub shutdown_queue : ℕ → Bool → List Item → List Item
unfolding wake
shutdown_queue maxsize immediate q = if immediate then wake maxsize [] else wake maxsize q

-- `_mark_disconnected` at time `now`: the queue is a new one; the old one only wakes its reader.
unfoldable pub mark_disconnected : ℕ → Conn → Conn
mark_disconnected now c =
    let c' = record c { ready = false; max_message_bytes = min_message_bytes } in
    if c.ready
    then record c' {
      last_disconnect_at = now;
      retry_announced = false;
      backoff_announced = false;
      inbox = [];
    }
    else c'

-- `is_connected`
unfoldable pub is_connected : Conn → Bool
is_connected c = c.ready && not c.stopped

-- `recv` when its wait ends: the first item of the queue, if there is one.
abbrev pub take_item : List Item → Conn → Option (Route × Request) × Conn
take_item [] c = (none, c)
take_item (incoming route req ∷ rest) c = (some (route, req), record c { inbox = rest })
take_item (sentinel ∷ rest) c = (none, record c { inbox = rest })

unfoldable pub recv : Conn → Option (Route × Request) × Conn
recv c = take_item c.inbox c

-- `stop`
unfoldable pub stop : Conn → Conn × List Action
unfolding shutdown_queue
stop c = if c.stopped then (c, []) else (
  record c { stopped = true; inbox = shutdown_queue c.setup.queue_max true c.inbox },
  elim c.ws [ none ↦ [] | some ws ↦ aborts ws ∷ [] ],
)
