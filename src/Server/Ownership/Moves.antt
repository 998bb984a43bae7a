-- ===== src/Server/Ownership/Moves.antt =====
-- The ownership of an exec environment as a state machine: every method of `BridgeServer` that
-- touches it (src/ida_bridge/server.py) makes one of these moves, and leaves other IDAs alone.
use ida_bridge.Common.{
  ℕ, String, ◌≡◌, ◌≢◌, ◌⊎◌, inl, inr, refl, Bool, true, false, Option, none, some, [], ◌∷◌, arith,
  ◌==◌, text_key, same_iff, Bool-cases, ◌∙◌, if◌then◌else◌,
}
use ida_bridge.Common.Dict.{Dict, get, put, pop, get-put, get-pop}
use ida_bridge.Server.State.{
  Server, TakeoverPending, ReleasePending, Ownership, owned, takeover_pending, release_pending,
  locked_unknown,
}
use ida_bridge.Server.Ownership.{
  is_expired, expire_each, expire_ownerships, claim_owner, refresh_owner, enter_takeover,
  enter_release, clear_ownership, is_takeover, is_release, lock_takeover_unknown,
  lock_release_unknown, commit_takeover, commit_release, restore_owner, restore_release_owner,
  lock_unknown, commit, roll_back,
}

pub data Move (o o' : Option Ownership) : Type 0 where
  stay : o' ≡ o → Move o o'
  clear : o' ≡ none → Move o o'
  claim : (session : String) (until : ℕ) → o ≡ none → o' ≡ some (owned session until) → Move o o'
  refresh :
      (session : String) (until until' : ℕ)
      → o ≡ some (owned session until)
      → o' ≡ some (owned session until')
      → Move o o'
  begin_takeover :
      (t : TakeoverPending) (until : ℕ)
      → o ≡ some (owned t.from_session_id until)
      → t.from_session_id ≢ t.to_session_id
      → o' ≡ some (takeover_pending t)
      → Move o o'
  begin_release :
      (r : ReleasePending) (until : ℕ)
      → o ≡ some (owned r.session_id until)
      → o' ≡ some (release_pending r)
      → Move o o'
  take :
      (t : TakeoverPending) (until : ℕ)
      → o ≡ some (takeover_pending t)
      → o' ≡ some (owned t.to_session_id until)
      → Move o o'
  take_back :
      (t : TakeoverPending) (until : ℕ)
      → o ≡ some (takeover_pending t)
      → o' ≡ some (owned t.from_session_id until)
      → Move o o'
  lock_takeover :
      (t : TakeoverPending) → o ≡ some (takeover_pending t) → o' ≡ some locked_unknown → Move o o'
  lock_release :
      (r : ReleasePending) → o ≡ some (release_pending r) → o' ≡ some locked_unknown → Move o o'
  keep_owner :
      (r : ReleasePending) (until : ℕ)
      → o ≡ some (release_pending r)
      → o' ≡ some (owned r.session_id until)
      → Move o o'

abbrev pub Moves : Server → Server → Type 0
Moves s s' = (ida_id : String) → Move (get ida_id s.ownership) (get ida_id s'.ownership)

-- A write at one key is a move there, and no change elsewhere.
pub put-Move :
    (k j : String) (v : Ownership) (d : Dict String Ownership)
    → Move (get k d) (some v)
    → Move (get j d) (get j (put k v d))
put-Move k j v d m = elim (Bool-cases (k == j)) [
  | inl e ↦ rw (get-put k j v d, e, ← (same_iff k j).0 e) m
  | inr e ↦ stay (get-put k j v d ∙ rw e)
]

is_takeover-eq :
    (o : Option Ownership) (t : TakeoverPending)
    → is_takeover o t ≡ true
    → o ≡ some (takeover_pending t)
unfolding is_takeover
is_takeover-eq none t h = cc
is_takeover-eq (some (takeover_pending u)) t h = ground (
  arith,
  same_iff u.from_session_id t.from_session_id,
  same_iff u.to_session_id t.to_session_id,
  same_iff u.req_id t.req_id,
)
is_takeover-eq (some _) t h = cc

is_release-eq :
    (o : Option Ownership) (r : ReleasePending)
    → is_release o r ≡ true
    → o ≡ some (release_pending r)
unfolding is_release
is_release-eq none r h = cc
is_release-eq (some (release_pending q)) r h =
    ground (arith, same_iff q.session_id r.session_id, same_iff q.req_id r.req_id)
is_release-eq (some _) r h = cc

set-Moves :
    (k : String) (v : Ownership) (s : Server)
    → Move (get k s.ownership) (some v)
    → Moves s (record s { ownership = put k v s.ownership })
set-Moves k v s m j = put-Move k j v s.ownership m

pub Moves-refl : (s : Server) → Moves s s
Moves-refl s j = stay refl

Moves-if :
    (b : Bool) (s t u : Server)
    → (b ≡ true → Moves s t)
    → (b ≡ false → Moves s u)
    → Moves s (if b then t else u)
Moves-if true s t u h k = h refl
Moves-if false s t u h k = k refl

expire_each-keeps :
    (now : ℕ) (items current : Dict String Ownership) (j : String)
    → (get j (expire_each now items current) ≡ get j current)
      ⊎ (get j (expire_each now items current) ≡ none)
unfolding expire_each
expire_each-keeps now [] current j = inl refl
expire_each-keeps now ((k, o) ∷ items) current j = ground (
  arith,
  expire_each-keeps now items (if is_expired now o then pop k current else current) j,
  get-pop k j current,
)

pub expire_ownerships-Moves : (s : Server) → Moves s (expire_ownerships s)
unfolding expire_ownerships
expire_ownerships-Moves s j = elim (expire_each-keeps s.now s.ownership s.ownership j) [
  | inl e ↦ stay e
  | inr e ↦ clear e
]

pub clear_ownership-Moves : (k : String) (s : Server) → Moves s (clear_ownership k s)
unfolding clear_ownership
clear_ownership-Moves k s j = elim (Bool-cases (k == j)) [
  | inl e ↦ clear (get-pop k j s.ownership ∙ rw e)
  | inr e ↦ stay (get-pop k j s.ownership ∙ rw e)
]

pub claim_owner-Moves :
    (k session : String) (s : Server) → get k s.ownership ≡ none → Moves s (claim_owner k session s)
unfolding claim_owner
claim_owner-Moves k session s e = set-Moves k _ s (claim session _ e refl)

pub refresh_owner-Moves :
    (k session : String) (until : ℕ) (s : Server)
    → get k s.ownership ≡ some (owned session until)
    → Moves s (refresh_owner k session s)
unfolding refresh_owner
refresh_owner-Moves k session until s e = set-Moves k _ s (refresh session until _ e refl)

pub enter_takeover-Moves :
    (k : String) (t : TakeoverPending) (until : ℕ) (s : Server)
    → get k s.ownership ≡ some (owned t.from_session_id until)
    → t.from_session_id ≢ t.to_session_id
    → Moves s (enter_takeover k t s)
unfolding enter_takeover
enter_takeover-Moves k t until s e ne = set-Moves k _ s (begin_takeover t until e ne refl)

pub enter_release-Moves :
    (k : String) (r : ReleasePending) (until : ℕ) (s : Server)
    → get k s.ownership ≡ some (owned r.session_id until)
    → Moves s (enter_release k r s)
unfolding enter_release
enter_release-Moves k r until s e = set-Moves k _ s (begin_release r until e refl)

pub lock_unknown-Moves :
    (k : String) (t : Option TakeoverPending) (r : Option ReleasePending) (s : Server)
    → Moves s (lock_unknown k t r s)
unfolding lock_takeover_unknown lock_release_unknown
lock_unknown-Moves k (some t) r s =
    Moves-if _ s _ s (λ e. set-Moves k _ s (lock_takeover t (is_takeover-eq _ t e) refl))
      (λ e. Moves-refl s)
lock_unknown-Moves k none (some r) s =
    Moves-if _ s _ s (λ e. set-Moves k _ s (lock_release r (is_release-eq _ r e) refl))
      (λ e. Moves-refl s)
lock_unknown-Moves k none none s = Moves-refl s

pub commit-Moves :
    (k : String) (t : Option TakeoverPending) (r : Option ReleasePending) (ok : Bool) (s : Server)
    → Moves s (commit k t r ok s)
unfolding commit_takeover commit_release
commit-Moves k (some t) r true s =
    Moves-if _ s _ s (λ e. set-Moves k _ s (take t _ (is_takeover-eq _ t e) refl))
      (λ e. Moves-refl s)
commit-Moves k (some t) r false s =
    Moves-if _ s _ s (λ e. set-Moves k _ s (lock_takeover t (is_takeover-eq _ t e) refl))
      (λ e. Moves-refl s)
commit-Moves k none (some r) true s =
    Moves-if _ s _ s (λ e. clear_ownership-Moves k s) (λ e. Moves-refl s)
commit-Moves k none (some r) false s =
    Moves-if _ s _ s (λ e. set-Moves k _ s (keep_owner r _ (is_release-eq _ r e) refl))
      (λ e. Moves-refl s)
commit-Moves k none none ok s = Moves-refl s

pub roll_back-Moves :
    (k : String) (t : Option TakeoverPending) (r : Option ReleasePending) (claimed : Bool)
    (s : Server)
    → Moves s (roll_back k t r claimed s)
unfolding restore_owner restore_release_owner
roll_back-Moves k (some t) r claimed s =
    Moves-if _ s _ s (λ e. set-Moves k _ s (take_back t _ (is_takeover-eq _ t e) refl))
      (λ e. Moves-refl s)
roll_back-Moves k none (some r) claimed s =
    Moves-if _ s _ s (λ e. set-Moves k _ s (keep_owner r _ (is_release-eq _ r e) refl))
      (λ e. Moves-refl s)
roll_back-Moves k none none true s = clear_ownership-Moves k s
roll_back-Moves k none none false s = Moves-refl s
