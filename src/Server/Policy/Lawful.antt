-- ===== src/Server/Policy/Lawful.antt =====
-- `_apply_exec_env_policy` (src/ida_bridge/server.py) changes the ownership by the moves of the state
-- machine, and the transition that it hands on is tagged with the request.
use ida_bridge.Common.{
  ℕ, String, ◌≡◌, ◌≢◌, refl, Option, none, some, arith, ◌==◌, text_key, same_iff, if◌then◌else◌,
}
use ida_bridge.Common.Dict.{get}
use ida_bridge.Protocol.Message.{Route}
use ida_bridge.Server.State.{
  Server, Ownership, owned, takeover_pending, release_pending, locked_unknown,
}
use ida_bridge.Server.Co.{raise, assertion_error}
use ida_bridge.Server.Co.Within.{
  Within, Within-ret, Within-raise, Within-read, Within-write, Within-if, Within-option,
  Within-bind,
}
use ida_bridge.Server.Law.{Lawful, Tags, ownership_law}
use ida_bridge.Server.Ownership.{expire_ownerships}
use ida_bridge.Server.Ownership.Moves.{
  expire_ownerships-Moves, claim_owner-Moves, refresh_owner-Moves, enter_takeover-Moves,
  enter_release-Moves,
}
use ida_bridge.Server.Ownership.Frame.{
  expire_ownerships-Only, claim_owner-Only, refresh_owner-Only, enter_takeover-Only,
  enter_release-Only,
}
use ida_bridge.Server.Policy.{
  EnvRequest, requested_session, is_stateless, is_release_only, is_takeover_request, ExecEnvPolicy,
  get_ownership, owned_by_other, owned_by_same, unowned, stateful_policy, stateless_policy,
  policy_for, apply_exec_env_policy,
}

-- What is read is the entry of the server as it then is.
abbrev pub IsCurrent : String → Option Ownership → Server → Type 0
IsCurrent ida_id o s = get ida_id s.ownership ≡ o

pub get_ownership-Lawful :
    (ida_id : String) (s : Server) → Within Lawful (IsCurrent ida_id) (get_ownership ida_id) s
unfolding get_ownership
get_ownership-Lawful ida_id s =
    Within-write expire_ownerships _ s
      (ownership_law _ _ (expire_ownerships-Only s) (expire_ownerships-Moves s))
      (Within-read _ _ (Within-ret _ _ refl))

abbrev pub IsTagged : String → ExecEnvPolicy → Server → Type 0
IsTagged req_id policy s = Tags req_id policy.takeover policy.release

module _ (route : Route) (msg : EnvRequest) (s : Server) where
  owned_by_other-Lawful :
      (current session_id : String) (until : ℕ)
      → get route.dst s.ownership ≡ some (owned current until)
      → current ≢ session_id
      → Within Lawful (IsTagged route.id) (owned_by_other route msg current session_id) s
  unfolding owned_by_other
  owned_by_other-Lawful current session_id until e ne =
      Within-if (is_takeover_request msg) _ _ s
        (λ _.
          Within-write _ _ s
            (ownership_law _ _ (enter_takeover-Only route.dst _ s)
              (enter_takeover-Moves route.dst _ until s e ne))
            (Within-ret _ _ refl))
        (λ _. Within-ret _ s tt)

  owned_by_same-Lawful :
      (session_id : String) (until : ℕ)
      → get route.dst s.ownership ≡ some (owned session_id until)
      → Within Lawful (IsTagged route.id) (owned_by_same route msg session_id) s
  unfolding owned_by_same
  owned_by_same-Lawful session_id until e =
      Within-if (is_release_only msg) _ _ s
        (λ _.
          Within-write _ _ s
            (ownership_law _ _ (enter_release-Only route.dst _ s)
              (enter_release-Moves route.dst _ until s e))
            (Within-ret _ _ refl))
        (λ _.
          Within-write _ _ s
            (ownership_law _ _ (refresh_owner-Only route.dst session_id s)
              (refresh_owner-Moves route.dst session_id until s e))
            (Within-ret _ _ tt))

  unowned-Lawful :
      (session_id : String)
      → get route.dst s.ownership ≡ none
      → Within Lawful (IsTagged route.id) (unowned route msg session_id) s
  unfolding unowned
  unowned-Lawful session_id e =
      Within-if (is_release_only msg) _ _ s (λ _. Within-ret _ s tt)
        (λ _.
          Within-write _ _ s
            (ownership_law _ _ (claim_owner-Only route.dst session_id s)
              (claim_owner-Moves route.dst session_id s e))
            (Within-ret _ _ tt))

  stateful_policy-Lawful :
      (o : Option Ownership) (session_id : String)
      → IsCurrent route.dst o s
      → Within Lawful (IsTagged route.id) (stateful_policy route msg o session_id) s
  unfolding stateful_policy
  stateful_policy-Lawful none session_id e = unowned-Lawful session_id e
  stateful_policy-Lawful (some (owned current until)) session_id e =
      Within-if (current == session_id) _ _ s
        (λ same.
          owned_by_same-Lawful session_id until (rw (← (same_iff current session_id).0 same) e))
        (λ other.
          owned_by_other-Lawful current session_id until e
            λ eq. ground (arith, same_iff current session_id))
  stateful_policy-Lawful (some _) session_id e = Within-raise assertion_error s

  stateless_policy-Lawful :
      (o : Option Ownership) → Within Lawful (IsTagged route.id) (stateless_policy route msg o) s
  unfolding stateless_policy
  stateless_policy-Lawful none = Within-ret _ s tt
  stateless_policy-Lawful (some (owned current until)) = Within-ret _ s tt
  stateless_policy-Lawful (some _) = Within-raise assertion_error s

  by_kind-Lawful :
      (o : Option Ownership)
      → IsCurrent route.dst o s
      → Within Lawful
          (IsTagged route.id)
          (if is_stateless msg then stateless_policy route msg o else elim (requested_session msg) [
            | none ↦ raise assertion_error
            | some session_id ↦ stateful_policy route msg o session_id
          ])
          s
  by_kind-Lawful o e =
      Within-if (is_stateless msg) _ _ s (λ _. stateless_policy-Lawful o)
        (λ _.
          Within-option (requested_session msg) _ _ s (λ _. Within-raise _ s)
            (λ session_id _. stateful_policy-Lawful o session_id e))

  policy_for-Lawful :
      (o : Option Ownership)
      → IsCurrent route.dst o s
      → Within Lawful (IsTagged route.id) (policy_for route msg o) s
  unfolding policy_for
  policy_for-Lawful (some (takeover_pending t)) e = Within-ret _ s tt
  policy_for-Lawful (some (release_pending r)) e = Within-ret _ s tt
  policy_for-Lawful (some locked_unknown) e = Within-ret _ s tt
  policy_for-Lawful none e = by_kind-Lawful none e
  policy_for-Lawful (some (owned c u)) e = by_kind-Lawful (some (owned c u)) e

pub apply_exec_env_policy-Lawful :
    (route : Route) (msg : EnvRequest) (s : Server)
    → Within Lawful (IsTagged route.id) (apply_exec_env_policy route msg) s
unfolding apply_exec_env_policy
apply_exec_env_policy-Lawful route msg s =
    Within-bind (get_ownership route.dst) _ s (get_ownership-Lawful route.dst s)
      (λ o s' e. policy_for-Lawful route msg s' o e)
