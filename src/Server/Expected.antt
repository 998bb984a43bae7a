-- ===== src/Server/Expected.antt =====
-- What requests do to the bridge's state, said without its code (src/ida_bridge/server.py): when a
-- deadline has come, and what becomes of the ownership transition that a request carries.
use ida_bridge.Common.{
  ℕ, ◌+◌, ◌≡◌, refl, ap, sym, String, Bool, true, false, not, ◌&&◌, Option, none, some, ltb, leb,
  ◌==◌, text_key, if◌then◌else◌, arith,
}
use ida_bridge.Common.Dict.{Dict, get, put, pop}
use ida_bridge.Server.State.{
  Server, Pending, TakeoverPending, ReleasePending, Ownership, owned, takeover_pending,
  release_pending, locked_unknown,
}
use ida_bridge.Server.Ownership.{
  is_takeover, is_release, lock_takeover_unknown, lock_release_unknown, commit_takeover,
  commit_release, clear_ownership, lock_unknown, commit,
}
use ida_bridge.Server.Timeouts.{is_due}

-- A deadline comes when the clock is no longer before it; without one it never does.
abbrev pub has_come : ℕ → Option ℕ → Bool
has_come now none = false
has_come now (some deadline) = not (ltb now deadline)

-- The ownership is in the very transition that a request with these two carries.
abbrev pub carried : Option TakeoverPending → Option ReleasePending → Option Ownership → Bool
carried (some t) r (some (takeover_pending u)) =
    u.from_session_id == t.from_session_id
    && u.to_session_id == t.to_session_id
    && u.req_id == t.req_id
carried none (some r) (some (release_pending q)) =
    q.session_id == r.session_id && q.req_id == r.req_id
carried _ _ _ = false

-- The ownerships once the outcome of the transition is unknown.
abbrev pub with_lock :
    String
    → Option TakeoverPending
    → Option ReleasePending
    → Dict String Ownership
    → Dict String Ownership
with_lock k t r o = if carried t r (get k o) then put k locked_unknown o else o

-- The ownerships once the transition has succeeded or failed: a takeover gives the environment to the
-- new session or locks it, a release frees it or gives it back to its session.
abbrev pub outcome_of :
    String
    → Option TakeoverPending
    → Option ReleasePending
    → Bool
    → ℕ
    → Dict String Ownership
    → Dict String Ownership
outcome_of k (some t) r true until o = put k (owned t.to_session_id until) o
outcome_of k (some t) r false until o = put k locked_unknown o
outcome_of k none (some r) true until o = pop k o
outcome_of k none (some r) false until o = put k (owned r.session_id until) o
outcome_of k none none ok until o = o

abbrev pub with_outcome :
    String
    → Option TakeoverPending
    → Option ReleasePending
    → Bool
    → ℕ
    → Dict String Ownership
    → Dict String Ownership
with_outcome k t r ok until o = if carried t r (get k o) then outcome_of k t r ok until o else o

pub is_due-has_come : (now : ℕ) (p : Pending) → is_due now p ≡ has_come now p.deadline
unfolding is_due
is_due-has_come now p = by_deadline p.deadline
  where
    by_deadline : (d : Option ℕ) → elim d [ none ↦ false | some n ↦ leb n now ] ≡ has_come now d
    by_deadline none = refl
    by_deadline (some n) = ground arith

is_takeover-carried :
    (t : TakeoverPending) (r : Option ReleasePending) (o : Option Ownership)
    → is_takeover o t ≡ carried (some t) r o
unfolding is_takeover
is_takeover-carried t r none = refl
is_takeover-carried t r (some (owned b until)) = refl
is_takeover-carried t r (some (takeover_pending u)) = refl
is_takeover-carried t r (some (release_pending q)) = refl
is_takeover-carried t r (some locked_unknown) = refl

is_release-carried :
    (r : ReleasePending) (o : Option Ownership) → is_release o r ≡ carried none (some r) o
unfolding is_release
is_release-carried r none = refl
is_release-carried r (some (owned b until)) = refl
is_release-carried r (some (takeover_pending u)) = refl
is_release-carried r (some (release_pending q)) = refl
is_release-carried r (some locked_unknown) = refl

idle : (o : Option Ownership) → carried none none o ≡ false
idle none = refl
idle (some (owned b until)) = refl
idle (some (takeover_pending u)) = refl
idle (some (release_pending q)) = refl
idle (some locked_unknown) = refl

chosen :
    (b : Bool) (s : Server) (o : Dict String Ownership)
    → (if b then record s { ownership = o } else s)
      ≡ record s { ownership = if b then o else s.ownership }
chosen true s o = refl
chosen false s o = refl

pub lock_unknown-with_lock :
    (k : String) (t : Option TakeoverPending) (r : Option ReleasePending) (s : Server)
    → lock_unknown k t r s ≡ record s { ownership = with_lock k t r s.ownership }
unfolding lock_takeover_unknown lock_release_unknown
lock_unknown-with_lock k (some t) r s =
    rw (is_takeover-carried t r (get k s.ownership)) (chosen _ s _)
lock_unknown-with_lock k none (some r) s =
    rw (is_release-carried r (get k s.ownership)) (chosen _ s _)
lock_unknown-with_lock k none none s =
    ap
      (λ (b : Bool). record s {
        ownership = if b then put k locked_unknown s.ownership else s.ownership;
      })
      (sym (idle (get k s.ownership)))

pub commit-with_outcome :
    (k : String) (t : Option TakeoverPending) (r : Option ReleasePending) (ok : Bool) (s : Server)
    → commit k t r ok s
      ≡ record s { ownership = with_outcome k t r ok (s.now + s.stateful_ttl) s.ownership }
unfolding commit_takeover commit_release clear_ownership
commit-with_outcome k (some t) r true s =
    rw (is_takeover-carried t r (get k s.ownership)) (chosen _ s _)
commit-with_outcome k (some t) r false s =
    rw (is_takeover-carried t r (get k s.ownership)) (chosen _ s _)
commit-with_outcome k none (some r) true s =
    rw (is_release-carried r (get k s.ownership)) (chosen _ s _)
commit-with_outcome k none (some r) false s =
    rw (is_release-carried r (get k s.ownership)) (chosen _ s _)
commit-with_outcome k none none ok s =
    ap (λ (b : Bool). record s { ownership = if b then s.ownership else s.ownership })
      (sym (idle (get k s.ownership)))
