-- ===== src/Conn/Invariant.antt =====
-- What the accesses of the two threads of a `BridgeConn` keep (src/ida_bridge/bridge_conn.py).
use ida_bridge.Common.{
  ℕ, ◌≡◌, ◌≢◌, ◌⊎◌, inl, inr, String, true, false, ◌||◌, Option, none, some, List, [], ◌∷◌, ◌++◌,
  ◌≤◌, arith, ltb, length, length-append, All, ◌==◌, text_key, number_key, Bool-cases,
}
use ida_bridge.Protocol.Message.{Route, Request}
use ida_bridge.Conn.State.{Conn, Item, incoming, sentinel, opened, put_nowait}
use ida_bridge.Conn.Receive.{is_ida_request}
use ida_bridge.Conn.Loop.{Threads}

-- A request for this IDA, and of a kind that an IDA serves.
abbrev pub IsFor : String → Route → Request → Type 0
IsFor client_id route req = (route.dst ≡ client_id) × (is_ida_request req ≡ true)

abbrev pub IsOurs : String → Item → Type 0
IsOurs client_id (incoming route req) = IsFor client_id route req
IsOurs client_id sentinel = Unit

abbrev pub IsHeldFor : String → Option (Route × Request) → Type 0
IsHeldFor client_id none = Unit
IsHeldFor client_id (some (route, req)) = IsFor client_id route req

abbrev pub IsBounded : ℕ → List Item → Type 0
IsBounded maxsize q = (maxsize ≡ 0) ⊎ (length q ≤ maxsize)

pub empty-IsBounded : (maxsize : ℕ) → IsBounded maxsize []
empty-IsBounded maxsize = inr (omega arith)

pub record IsWf (t : Threads) : Type 0 where
  pub closed_is_not_ready : t.conn.phase ≢ opened → t.conn.ready ≡ false
  pub ours : All (IsOurs t.conn.setup.client_id) t.conn.inbox
  pub held_ours : IsHeldFor t.conn.setup.client_id t.held
  pub bounded : IsBounded t.conn.setup.queue_max t.conn.inbox

pub put_nowait-grows :
    (maxsize : ℕ) (item : Item) (q q' : List Item)
    → put_nowait maxsize item q ≡ some q'
    → (q' ≡ q ++ item ∷ []) × (IsBounded maxsize q → IsBounded maxsize q')
unfolding put_nowait
put_nowait-grows maxsize item q q' e = elim (Bool-cases (maxsize == 0 || ltb (length q) maxsize)) [
  | inr no_room ↦ absurd (ground arith)
  | inl room ↦ let grown : q' ≡ q ++ item ∷ [] = ground arith in (grown, λ b. rw grown (longer b))
]
  where
    longer : IsBounded maxsize q → IsBounded maxsize (q ++ item ∷ [])
    longer b = ground (arith, length-append q (item ∷ []))
