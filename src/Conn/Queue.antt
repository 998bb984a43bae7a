-- ===== src/Conn/Queue.antt =====
-- The inbox of a `BridgeConn` (src/ida_bridge/bridge_conn.py) and how it is shut down
-- (src/ida_bridge/ida_runtime.py, `shutdown_queue`).
use ida_bridge.Common.{
  ℕ, ◌≡◌, ◌≢◌, refl, inr, Bool, true, false, Option, none, some, List, [], ◌∷◌, ◌++◌, arith,
  number_key, text_key,
}
use ida_bridge.Conn.State.{Item, sentinel, put_nowait, drop_first, or_else, wake, shutdown_queue}
use ida_bridge.Conn.Invariant.{IsBounded, put_nowait-grows}

-- The queue ends with the sentinel.
pub data Wakes : List Item → Type 0 where
  at_end : (q : List Item) → Wakes (q ++ sentinel ∷ [])

snoc-Wakes : (q q' : List Item) → q' ≡ q ++ sentinel ∷ [] → Wakes q'
snoc-Wakes q q' e = rw e (at_end q)

abbrev IsWoken : ℕ → List Item → Type 0
IsWoken maxsize q = Wakes q × IsBounded maxsize q

put_first :
    (maxsize : ℕ) (q : List Item) (o : Option (List Item)) (next : List Item)
    → IsBounded maxsize q
    → put_nowait maxsize sentinel q ≡ o
    → (o ≡ none → IsWoken maxsize next)
    → IsWoken maxsize (or_else o next)
put_first maxsize q none next b e otherwise = otherwise refl
put_first maxsize q (some q') next b e otherwise =
    let (grown, room) = put_nowait-grows maxsize sentinel q q' e in (snoc-Wakes q q' grown, room b)

-- A full queue of a bounded size is not empty, and has room without its first item.
room_behind :
    (maxsize : ℕ) (q : List Item)
    → IsBounded maxsize q
    → put_nowait maxsize sentinel q ≡ none
    → put_nowait maxsize sentinel (drop_first q) ≢ none
unfolding put_nowait
room_behind maxsize [] b full none' = ground arith
room_behind maxsize (item ∷ rest) b full none' = ground arith

drop_first-IsBounded :
    (maxsize : ℕ) (q : List Item) → IsBounded maxsize q → IsBounded maxsize (drop_first q)
drop_first-IsBounded maxsize [] b = b
drop_first-IsBounded maxsize (item ∷ rest) b = ground arith

wake-IsWoken :
    (maxsize : ℕ) (q : List Item) → IsBounded maxsize q → IsWoken maxsize (wake maxsize q)
unfolding wake
wake-IsWoken maxsize q b = put_first maxsize q (put_nowait maxsize sentinel q) _ b refl (λ full.
    put_first maxsize (drop_first q) (put_nowait maxsize sentinel (drop_first q)) _
      (drop_first-IsBounded maxsize q b) refl (λ e. absurd (room_behind maxsize q b full e)))

-- `shutdown_queue` leaves a sentinel for the thread that waits, also when the queue was full, and
-- keeps the queue within its bound.
pub shutdown_queue-Wakes :
    (maxsize : ℕ) (immediate : Bool) (q : List Item)
    → IsBounded maxsize q
    → Wakes (shutdown_queue maxsize immediate q)
      × IsBounded maxsize (shutdown_queue maxsize immediate q)
unfolding shutdown_queue
shutdown_queue-Wakes maxsize true q b = wake-IsWoken maxsize [] (inr (omega arith))
shutdown_queue-Wakes maxsize false q b = wake-IsWoken maxsize q b
