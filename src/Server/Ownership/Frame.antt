-- ===== src/Server/Ownership/Frame.antt =====
-- What the ownership methods (src/ida_bridge/server.py) leave alone: they write `_ownership_by_ida`
-- only, and keep its keys apart.
use ida_bridge.Common.{
  ℕ, String, ◌≡◌, refl, Bool, true, false, Option, none, some, [], ◌∷◌, text_key, if◌then◌else◌,
}
use ida_bridge.Common.Dict.{Dict, put, pop, IsUnique, put-IsUnique, pop-IsUnique}
use ida_bridge.Server.State.{Server, TakeoverPending, ReleasePending, Ownership}
use ida_bridge.Server.Ownership.{
  is_expired, expire_each, expire_ownerships, claim_owner, refresh_owner, enter_takeover,
  enter_release, clear_ownership, lock_takeover_unknown, lock_release_unknown, commit_takeover,
  commit_release, restore_owner, restore_release_owner, lock_unknown, commit, roll_back,
}

-- Such a change is a new ownership dictionary for the server.
pub record OnlyOwnership (s s' : Server) : Type 0 where
  pub rest : s' ≡ record s { ownership = s'.ownership }
  pub unique : IsUnique s.ownership → IsUnique s'.ownership

same : (s : Server) → OnlyOwnership s s
same s = record { rest = refl; unique = λ u. u }

written :
    (k : String) (o : Ownership) (s : Server)
    → OnlyOwnership s (record s { ownership = put k o s.ownership })
written k o s = record { rest = refl; unique = put-IsUnique k o s.ownership }

pub clear_ownership-Only : (k : String) (s : Server) → OnlyOwnership s (clear_ownership k s)
unfolding clear_ownership
clear_ownership-Only k s = record { rest = refl; unique = pop-IsUnique k s.ownership }

either :
    (b : Bool) (s t u : Server)
    → OnlyOwnership s t
    → OnlyOwnership s u
    → OnlyOwnership s (if b then t else u)
either true s t u h k = h
either false s t u h k = k

expire_each-IsUnique :
    (now : ℕ) (items current : Dict String Ownership)
    → IsUnique current
    → IsUnique (expire_each now items current)
unfolding expire_each
expire_each-IsUnique now [] current u = u
expire_each-IsUnique now ((k, o) ∷ items) current u =
    expire_each-IsUnique now items _ (chosen (is_expired now o))
  where
    chosen : (b : Bool) → IsUnique (if b then pop k current else current)
    chosen true = pop-IsUnique k current u
    chosen false = u

pub expire_ownerships-Only : (s : Server) → OnlyOwnership s (expire_ownerships s)
unfolding expire_ownerships
expire_ownerships-Only s = record {
  rest = refl;
  unique = expire_each-IsUnique s.now s.ownership s.ownership;
}

pub claim_owner-Only : (k session : String) (s : Server) → OnlyOwnership s (claim_owner k session s)
unfolding claim_owner
claim_owner-Only k session s = written k _ s

pub refresh_owner-Only :
    (k session : String) (s : Server) → OnlyOwnership s (refresh_owner k session s)
unfolding refresh_owner
refresh_owner-Only k session s = written k _ s

pub enter_takeover-Only :
    (k : String) (t : TakeoverPending) (s : Server) → OnlyOwnership s (enter_takeover k t s)
unfolding enter_takeover
enter_takeover-Only k t s = written k _ s

pub enter_release-Only :
    (k : String) (r : ReleasePending) (s : Server) → OnlyOwnership s (enter_release k r s)
unfolding enter_release
enter_release-Only k r s = written k _ s

module _ (k : String) where
  pub lock_unknown-Only :
      (t : Option TakeoverPending) (r : Option ReleasePending) (s : Server)
      → OnlyOwnership s (lock_unknown k t r s)
  unfolding lock_takeover_unknown lock_release_unknown
  lock_unknown-Only (some t) r s = either _ s _ s (written k _ s) (same s)
  lock_unknown-Only none (some r) s = either _ s _ s (written k _ s) (same s)
  lock_unknown-Only none none s = same s

  pub commit-Only :
      (t : Option TakeoverPending) (r : Option ReleasePending) (ok : Bool) (s : Server)
      → OnlyOwnership s (commit k t r ok s)
  unfolding commit_takeover commit_release
  commit-Only (some t) r ok s =
      either _ s _ s (either ok s _ _ (written k _ s) (written k _ s)) (same s)
  commit-Only none (some r) ok s =
      either _ s _ s (either ok s _ _ (clear_ownership-Only k s) (written k _ s)) (same s)
  commit-Only none none ok s = same s

  pub roll_back-Only :
      (t : Option TakeoverPending) (r : Option ReleasePending) (claimed : Bool) (s : Server)
      → OnlyOwnership s (roll_back k t r claimed s)
  unfolding restore_owner restore_release_owner
  roll_back-Only (some t) r claimed s = either _ s _ s (written k _ s) (same s)
  roll_back-Only none (some r) claimed s = either _ s _ s (written k _ s) (same s)
  roll_back-Only none none claimed s = either claimed s _ _ (clear_ownership-Only k s) (same s)
