-- ===== src/Conn/Loop.antt =====
-- The two threads of a `BridgeConn` (src/ida_bridge/bridge_conn.py): the WS thread, which runs the attempts
-- and their callbacks, and the owner's calls. What they share they read and write one access at a time,
-- in any order: `self._ready`, `self._max_message_bytes`, the queue and `self._inbox` have no common lock.
use ida_bridge.Common.{
  ℕ, ◌≡◌, String, Bool, true, false, ◌&&◌, Option, none, some, List, [], ◌∷◌, text_key, ◌==◌,
}
use ida_bridge.Protocol.Message.{Message, Route, Request}
use ida_bridge.Server.Handler.{Parsed}
use ida_bridge.Conn.State.{
  Conn, Item, incoming, sentinel, between, dialing, opened, put_nowait, or_else, recv, stop,
}
use ida_bridge.Conn.Send.{Codec, send}
use ida_bridge.Conn.Receive.{
  on_open, on_message, on_close, begin_attempt, end_attempt, sleep_of, announce, is_ida_request,
}

-- `held` is the request that passed the tests of `_on_message` and is not yet put into the queue.
pub record Threads : Type 0 where
  pub conn : Conn
  pub held : Option (Route × Request)

abbrev pub at_rest : Conn → Threads
at_rest c = record { conn = c; held = none }

-- The tests of `_on_message` before `put_nowait`.
unfoldable pub passes_tests : Route → Request → Conn → Bool
passes_tests route req c = c.ready && (is_ida_request req && route.dst == c.setup.client_id)

-- `put_nowait` of a request; `queue.Full` leaves the queue as it is.
unfoldable pub put_request : Route → Request → Conn → Conn
put_request route req c = record c {
  inbox = or_else (put_nowait c.setup.queue_max (incoming route req) c.inbox) c.inbox;
}

-- One access of either thread. An access to a queue that `_mark_disconnected` has replaced changes nothing
-- here, but that the request goes with it (`loses`).
pub data Access (t : Threads) : Threads → Type 0 where
  -- `_ready.clear()`
  clears : Access t (record t { conn = record t.conn { ready = false } })
  limits : (n : ℕ) → Access t (record t { conn = record t.conn { max_message_bytes = n } })
  -- `_ready.set()` of `_on_message`
  attaches : t.conn.phase ≡ opened → Access t (record t { conn = record t.conn { ready = true } })
  -- `self._inbox = queue.Queue(...)`
  renews : Access t (record t { conn = record t.conn { inbox = [] } })
  tests :
      (route : Route) (req : Request)
      → passes_tests route req t.conn ≡ true
      → Access t (record t { held = some (route, req) })
  puts :
      (route : Route) (req : Request)
      → t.held ≡ some (route, req)
      → Access t (record { conn = put_request route req t.conn; held = none })
  loses : Access t (record t { held = none })
  -- `get` and `get_nowait`
  takes :
      (item : Item) (rest : List Item)
      → t.conn.inbox ≡ item ∷ rest
      → Access t (record t { conn = record t.conn { inbox = rest } })
  wakes :
      (q : List Item)
      → put_nowait t.conn.setup.queue_max sentinel t.conn.inbox ≡ some q
      → Access t (record t { conn = record t.conn { inbox = q } })
  stops : Access t (record t { conn = record t.conn { stopped = true } })
  -- What is written under `_conn_lock`.
  notes :
      (at : ℕ) (retry backoff : Bool)
      → Access t (record t {
        conn = record t.conn {
          last_disconnect_at = at;
          retry_announced = retry;
          backoff_announced = backoff;
        };
      })
  sets_ws : (ws : Option ℕ) → Access t (record t { conn = record t.conn { ws = ws } })
  -- An attempt begins, `_on_open` clears, and `_run_ws` clears after `run_forever`.
  dials : t.conn.phase ≡ between → Access t (record t { conn = record t.conn { phase = dialing } })
  opens :
      t.conn.phase ≡ dialing
      → Access t (record t { conn = record t.conn { ready = false; phase = opened } })
  ends : Access t (record t { conn = record t.conn { ready = false; phase = between } })

pub data Accesses (t : Threads) : Threads → Type 0 where
  here : Accesses t t
  next : {u v : Threads} → Accesses t u → Access u v → Accesses t v

-- The methods, each run as a whole.
module _ (k : Codec) (accepts : ℕ → Message → Bool) (parse : String → Parsed) where
  pub data Call (c : Conn) : Conn → Type 0 where
    begins : (ws : ℕ) → c.phase ≡ between → Call c (begin_attempt ws c)
    opens_ws : (now : ℕ) → c.phase ≡ dialing → Call c (on_open k accepts now c).conn
    receives :
        (now ws : ℕ) (raw : String)
        → c.phase ≡ opened
        → Call c (on_message k accepts now parse ws raw c).conn
    fails : (now : ℕ) → Call c (on_close now c)
    ends_ws : (now ws : ℕ) → Call c (announce (sleep_of now c) (end_attempt now ws c))
    recvs : Call c (recv c).1
    sends : (now : ℕ) (msg : Message) → Call c (send k accepts now msg c).conn
    stops_conn : Call c (stop c).0
