-- ===== src/Server/Loop/Ownership.antt =====
-- What the state machine of ownership means for sessions (src/ida_bridge/server.py): no single write of
-- a handler hands an exec environment from one session to another.
use ida_bridge.Common.{String, ℕ, ◌≡◌, refl, Option, none, some, List, ◌⊎◌, inl, inr, text_key}
use ida_bridge.Common.Dict.{get}
use ida_bridge.Server.State.{
  Server, Ownership, owned, takeover_pending, release_pending, locked_unknown,
}
use ida_bridge.Server.Co.Within.{Within, Always, Within-weaken}
use ida_bridge.Server.Ownership.Moves.{
  Move, stay, clear, claim, refresh, begin_takeover, begin_release, take, take_back, lock_takeover,
  lock_release, keep_owner,
}
use ida_bridge.Server.Bridge.{HostResult}
use ida_bridge.Server.Route.{Session}
use ida_bridge.Server.Handler.{Frame, Ending, Parsed, handler}
use ida_bridge.Server.Handler.Lawful.{handler-IsLawful}
use ida_bridge.Server.Timeouts.{timeout_round}
use ida_bridge.Server.Timeouts.Lawful.{timeout_round-IsLawful}

-- An owned environment stays with its session, becomes free, or enters a transition that names that
-- session; a takeover ends with one of its two sessions, as locked, or free; a release ends with its
-- session, as locked, or free; a locked environment can only become free.
abbrev pub Allowed : Option Ownership → Option Ownership → Type 0
Allowed none none = Unit
Allowed none (some (owned b until)) = Unit
Allowed none (some _) = ⊥
Allowed (some o) none = Unit
Allowed (some (owned a until)) (some (owned b until')) = b ≡ a
Allowed (some (owned a until)) (some (takeover_pending t)) = t.from_session_id ≡ a
Allowed (some (owned a until)) (some (release_pending r)) = r.session_id ≡ a
Allowed (some (owned a until)) (some locked_unknown) = ⊥
Allowed (some (takeover_pending t)) (some (owned b until)) =
    (b ≡ t.from_session_id) ⊎ (b ≡ t.to_session_id)
Allowed (some (takeover_pending t)) (some (takeover_pending u)) = u ≡ t
Allowed (some (takeover_pending t)) (some (release_pending r)) = ⊥
Allowed (some (takeover_pending t)) (some locked_unknown) = Unit
Allowed (some (release_pending r)) (some (owned b until)) = b ≡ r.session_id
Allowed (some (release_pending r)) (some (takeover_pending t)) = ⊥
Allowed (some (release_pending r)) (some (release_pending q)) = q ≡ r
Allowed (some (release_pending r)) (some locked_unknown) = Unit
Allowed (some locked_unknown) (some locked_unknown) = Unit
Allowed (some locked_unknown) (some _) = ⊥

Allowed-refl : (o : Option Ownership) → Allowed o o
Allowed-refl none = tt
Allowed-refl (some (owned a until)) = refl
Allowed-refl (some (takeover_pending t)) = refl
Allowed-refl (some (release_pending r)) = refl
Allowed-refl (some locked_unknown) = tt

Allowed-clear : (o : Option Ownership) → Allowed o none
Allowed-clear none = tt
Allowed-clear (some o) = tt

Move-Allowed : (o p : Option Ownership) → Move o p → Allowed o p
Move-Allowed o p (stay e) = rw e (Allowed-refl o)
Move-Allowed o p (clear e) = rw e (Allowed-clear o)
Move-Allowed o p (claim a u e f) = rw (e, f) tt
Move-Allowed o p (refresh a u u' e f) = rw (e, f) refl
Move-Allowed o p (begin_takeover t u e ne f) = rw (e, f) refl
Move-Allowed o p (begin_release r u e f) = rw (e, f) refl
Move-Allowed o p (take t u e f) = rw (e, f) (inr refl)
Move-Allowed o p (take_back t u e f) = rw (e, f) (inl refl)
Move-Allowed o p (lock_takeover t e f) = rw (e, f) tt
Move-Allowed o p (lock_release r e f) = rw (e, f) tt
Move-Allowed o p (keep_owner r u e f) = rw (e, f) refl

abbrev pub AllowedAt : Server → Server → Type 0
AllowedAt s s' = (ida_id : String) → Allowed (get ida_id s.ownership) (get ida_id s'.ownership)

-- Whatever frames a connection brings, however it ends, and whatever other handlers do at its awaits:
-- each single write that its handler makes to the server changes the ownership of an IDA in an allowed
-- way. In particular no write replaces one owning session by another.
pub handler_ownership :
    (parse : String → Parsed) (host_cli : List String → HostResult) (ws : ℕ) (session : Session)
    (frames : List Frame) (ending : Ending) (s : Server)
    → Within AllowedAt Always (handler parse host_cli ws session frames ending) s
handler_ownership parse host_cli ws session frames ending s =
    Within-weaken (handler parse host_cli ws session frames ending) s
      (λ t t' l ida_id. Move-Allowed _ _ (l.moves ida_id))
      (handler-IsLawful parse host_cli ws session frames ending s)

-- The same of a round of the timeout loop.
pub timeout_ownership : (s : Server) → Within AllowedAt Always timeout_round s
timeout_ownership s =
    Within-weaken timeout_round s (λ t t' l ida_id. Move-Allowed _ _ (l.moves ida_id))
      (timeout_round-IsLawful s)
