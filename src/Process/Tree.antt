-- ===== src/Process/Tree.antt =====
-- src/ida_bridge/proc.py: the descendants of a process on Windows, from a snapshot of all processes.
pub mod Exact
use ida_bridge.Common.{
  ℕ, zero, suc, Bool, true, false, not, ◌||◌, Option, none, some, List, [], ◌∷◌, ◌++◌, length, any,
  number_key, ◌==◌, ltb, if◌then◌else◌,
}
use ida_bridge.Common.Dict.{Dict, get, put}

-- An entry of the snapshot: the process and its parent.
pub record Entry : Type 0 where
  pub parent : ℕ
  pub pid : ℕ

abbrev pub or_empty : Option (List ℕ) → List ℕ
or_empty none = []
or_empty (some pids) = pids

-- `children_of.setdefault(parent, []).append(pid)` for each entry.
unfoldable pub collect : Dict ℕ (List ℕ) → List Entry → Dict ℕ (List ℕ)
unfolding get put
collect children [] = children
collect children (e ∷ es) =
    collect (put e.parent (or_empty (get e.parent children) ++ e.pid ∷ []) children) es

abbrev pub is_member : ℕ → List ℕ → Bool
is_member pid pids = any (λ p. p == pid) pids

-- `stack.extend(pids)`, the top of the stack first.
unfoldable pub push_all : List ℕ → List ℕ → List ℕ
push_all [] stack = stack
push_all (pid ∷ pids) stack = push_all pids (pid ∷ stack)

-- The loop `while stack`, on fuel; `none` means that the fuel ran out.
unfoldable pub walk : Dict ℕ (List ℕ) → ℕ → List ℕ → List ℕ → List ℕ → Option (List ℕ)
unfolding get push_all
walk children zero stack seen out = none
walk children (suc rounds) [] seen out = some out
walk children (suc rounds) (cur ∷ stack) seen out =
    let skip = walk children rounds stack seen out in
    let visit =
      walk children rounds (push_all (or_empty (get cur children)) stack) (cur ∷ seen)
        (out ++ cur ∷ []) in
    if is_member cur seen then skip else visit

-- `_windows_descendant_pids`, where the snapshot succeeds; a failed one gives no descendants.
unfoldable pub descendant_pids : List Entry → ℕ → Option (List ℕ)
unfolding collect walk
descendant_pids entries root =
    let children = collect [] entries in
    walk children (suc (length entries)) (push_all (or_empty (get root children)) []) (root ∷ []) []

-- `is_pid_in_tree`; the snapshot is read on Windows only.
unfoldable pub is_pid_in_tree : Bool → List Entry → ℕ → ℕ → Bool
unfolding descendant_pids
is_pid_in_tree is_windows entries root pid =
    if pid == root
    then true
    else if not is_windows || (not (ltb 0 root) || not (ltb 0 pid))
    then false
    else (elim (descendant_pids entries root) [ none ↦ false | some pids ↦ is_member pid pids ])
