-- ===== src/Process/Tree/Exact.antt =====
-- The walk over a process's descendants (src/ida_bridge/proc.py) ends, and finds exactly them.
use mathlib.Core.List.{append_assoc, append-nil}
use ida_bridge.Common.{
  ℕ, zero, suc, ◌+◌, ◌≤◌, ◌<◌, ◌≡◌, ◌≢◌, ◌↔◌, refl, ap, sym, ◌∙◌, subst, inl, inr, true, false,
  ◌||◌, some, List, [], ◌∷◌, ◌++◌, length, number_key, ◌==◌, same_iff, same_self, if◌then◌else◌,
  Bool-cases, arith,
}
use ida_bridge.Common.Dict.{Dict, get, put, get-put}
use ida_bridge.Process.Tree.{Entry, or_empty, collect, is_member, push_all, walk, descendant_pids}

-- The children of a process, in the order of the snapshot.
pub kids : ℕ → List Entry → List ℕ
kids p [] = []
kids p (e ∷ es) = let rest = kids p es in if e.parent == p then e.pid ∷ rest else rest

collect-kids :
    (es : List Entry) (children : Dict ℕ (List ℕ)) (p : ℕ)
    → or_empty (get p (collect children es)) ≡ or_empty (get p children) ++ kids p es
unfolding collect kids
collect-kids [] children p = sym (append-nil (or_empty (get p children)))
collect-kids (e ∷ es) children p =
    collect-kids es (put e.parent (or_empty (get e.parent children) ++ e.pid ∷ []) children) p
    ∙ rw (get-put e.parent p (or_empty (get e.parent children) ++ e.pid ∷ []) children)
        (elim (Bool-cases (e.parent == p)) [
          | inl same ↦
              let eq = (same_iff e.parent p).0 same in
              rw (same, eq) (append_assoc (or_empty (get p children)) (e.pid ∷ []) (kids p es))
          | inr differ ↦ rw differ refl
        ])

-- How many entries have a parent that is not in a list.
unseen : List ℕ → List Entry → ℕ
unseen seen [] = 0
unseen seen (e ∷ es) =
    let rest = unseen seen es in if is_member e.parent seen then rest else suc rest

unseen-cons :
    (seen : List ℕ) (cur : ℕ) (es : List Entry)
    → is_member cur seen ≡ false
    → unseen (cur ∷ seen) es + length (kids cur es) ≡ unseen seen es
unfolding unseen kids
unseen-cons seen cur [] h = omega arith
unseen-cons seen cur (e ∷ es) h = elim (Bool-cases (e.parent == cur)) [
  | inl same ↦
      let eq = (same_iff e.parent cur).0 same in
      let h' : is_member e.parent seen ≡ false = rw eq h in
      rw (same, (same_iff cur e.parent).1 (sym eq), h') (omega (arith, unseen-cons seen cur es h))
  | inr differ ↦
      let differ' : (cur == e.parent) ≡ false = ground arith in
      elim (Bool-cases (is_member e.parent seen)) [
        | inl m ↦ rw (differ, differ', m) (unseen-cons seen cur es h)
        | inr m ↦ rw (differ, differ', m) (omega (arith, unseen-cons seen cur es h))
      ]
]

unseen-le : (seen : List ℕ) (es : List Entry) → unseen seen es ≤ length es
unfolding unseen
unseen-le seen [] = omega arith
unseen-le seen (e ∷ es) = ground (arith, unseen-le seen es)

unseen-nil : (es : List Entry) → unseen [] es ≡ length es
unfolding unseen
unseen-nil [] = refl
unseen-nil (e ∷ es) = ap suc (unseen-nil es)

length-push_all : (xs stack : List ℕ) → length (push_all xs stack) ≡ length xs + length stack
unfolding push_all
length-push_all [] stack = omega arith
length-push_all (x ∷ xs) stack = omega (arith, length-push_all xs (x ∷ stack))

is_member-push_all :
    (x : ℕ) (xs stack : List ℕ)
    → is_member x (push_all xs stack) ≡ (is_member x xs || is_member x stack)
unfolding push_all
is_member-push_all x [] stack = refl
is_member-push_all x (y ∷ xs) stack = ground (arith, is_member-push_all x xs (y ∷ stack))

is_member-append :
    (x : ℕ) (xs ys : List ℕ) → is_member x (xs ++ ys) ≡ (is_member x xs || is_member x ys)
is_member-append x [] ys = refl
is_member-append x (y ∷ xs) ys = ground (arith, is_member-append x xs ys)

children_of : (es : List Entry) (p : ℕ) → or_empty (get p (collect [] es)) ≡ kids p es
unfolding get
children_of es p = collect-kids es [] p

-- A process is below the root.
pub data Descends (es : List Entry) (root : ℕ) : ℕ → Type 0 where
  child : (c : ℕ) → is_member c (kids root es) ≡ true → Descends es root c
  below :
      {p : ℕ} → Descends es root p → (c : ℕ) → is_member c (kids p es) ≡ true → Descends es root c

-- No process comes twice.
abbrev pub IsDistinct : List ℕ → Type 0
IsDistinct [] = Unit
IsDistinct (x ∷ xs) = (is_member x xs ≡ false) × IsDistinct xs

append-IsDistinct :
    (xs : List ℕ) (x : ℕ) → IsDistinct xs → is_member x xs ≡ false → IsDistinct (xs ++ x ∷ [])
append-IsDistinct [] x d h = (refl, tt)
append-IsDistinct (y ∷ xs) x (new, d) h =
    (ground (arith, is_member-append y xs (x ∷ [])), append-IsDistinct xs x d (ground arith))

module _ (es : List Entry) (root : ℕ) (children : Dict ℕ (List ℕ))
    (children_lem : (p : ℕ) → or_empty (get p children) ≡ kids p es) where
  -- The loop's invariant.
  record Inv (stack seen out : List ℕ) : Type 0 where
    on_stack : (x : ℕ) → is_member x stack ≡ true → Descends es root x
    seen_lem : (x : ℕ) → is_member x seen ≡ (root == x || is_member x out)
    found : (x : ℕ) → is_member x out ≡ true → Descends es root x × (x ≢ root)
    closed :
        (x c : ℕ)
        → is_member x seen ≡ true
        → is_member c (kids x es) ≡ true
        → (is_member c seen || is_member c stack) ≡ true
    distinct : IsDistinct out

  skip-Inv :
      (cur : ℕ) (stack seen out : List ℕ)
      → is_member cur seen ≡ true
      → Inv (cur ∷ stack) seen out
      → Inv stack seen out
  skip-Inv cur stack seen out old inv = record {
    on_stack = λ x h. inv.on_stack x (ground arith);
    seen_lem = inv.seen_lem;
    found = inv.found;
    closed = λ x c h k. elim (Bool-cases (cur == c)) [
      | inl same ↦
          let eq : cur ≡ c = (same_iff cur c).0 same in
          let old' : is_member c seen ≡ true = subst (λ n. is_member n seen ≡ true) eq old in
          rw old' refl
      | inr differ ↦ rw differ at (inv.closed x c h k)
    ];
    distinct = inv.distinct;
  }

  module _ (cur : ℕ) (stack seen out : List ℕ) (new : is_member cur seen ≡ false)
      (inv : Inv (cur ∷ stack) seen out) where
    cur-Descends : Descends es root cur
    cur-Descends = inv.on_stack cur (rw (same_self cur) refl)

    cur-ne-root : cur ≢ root
    cur-ne-root e =
        let there : is_member root seen ≡ true = inv.seen_lem root ∙ rw (same_self root) refl in
        let new' : is_member root seen ≡ false = subst (λ n. is_member n seen ≡ false) e new in
        absurd (cc)

    visit-on_stack :
        (x : ℕ) → is_member x (push_all (kids cur es) stack) ≡ true → Descends es root x
    visit-on_stack x h = elim (Bool-cases (is_member x (kids cur es))) [
      | inl m ↦ below cur-Descends x m
      | inr m ↦ inv.on_stack x (ground (arith, is_member-push_all x (kids cur es) stack))
    ]

    visit-found : (x : ℕ) → is_member x (out ++ cur ∷ []) ≡ true → Descends es root x × (x ≢ root)
    visit-found x h = elim (Bool-cases (is_member x out)) [
      | inl m ↦ inv.found x m
      | inr m ↦
          let eq : cur ≡ x = ground (arith, is_member-append x out (cur ∷ [])) in
          subst (λ n. Descends es root n × (n ≢ root)) eq (cur-Descends, cur-ne-root)
    ]

    visit-closed :
        (x c : ℕ)
        → is_member x (cur ∷ seen) ≡ true
        → is_member c (kids x es) ≡ true
        → (is_member c (cur ∷ seen) || is_member c (push_all (kids cur es) stack)) ≡ true
    visit-closed x c h k = elim (Bool-cases (cur == x)) [
      | inl same ↦
          let eq : x ≡ cur = sym ((same_iff cur x).0 same) in
          let k' : is_member c (kids cur es) ≡ true =
            subst (λ n. is_member c (kids n es) ≡ true) eq k in
          ground (arith, is_member-push_all c (kids cur es) stack)
      | inr differ ↦
          let h' : is_member x seen ≡ true = rw differ at h in
          ground (arith, inv.closed x c h' k, is_member-push_all c (kids cur es) stack)
    ]

    visit-Inv : Inv (push_all (kids cur es) stack) (cur ∷ seen) (out ++ cur ∷ [])
    visit-Inv = record {
      on_stack = visit-on_stack;
      seen_lem = λ x. ground (arith, inv.seen_lem x, is_member-append x out (cur ∷ []));
      found = visit-found;
      closed = visit-closed;
      distinct = append-IsDistinct out cur inv.distinct (ground (arith, inv.seen_lem cur));
    }

  -- When the stack is empty, what was seen is the root and everything below it.
  Descends-seen :
      (seen out : List ℕ) → Inv [] seen out → (x : ℕ) → Descends es root x → is_member x seen ≡ true
  Descends-seen seen out inv x (child c h) =
      let there : is_member root seen ≡ true = inv.seen_lem root ∙ rw (same_self root) refl in
      ground (arith, inv.closed root x there h)
  Descends-seen seen out inv x (below {p} d c h) =
      ground (arith, inv.closed p x (Descends-seen seen out inv p d) h)

  -- The pids are those below the root, each once.
  abbrev pub Found : List ℕ → Type 0
  Found pids =
      IsDistinct pids × ((x : ℕ) → (is_member x pids ≡ true) ↔ (Descends es root x × (x ≢ root)))

  finished : (seen out : List ℕ) → Inv [] seen out → Found out
  finished seen out inv = (
    inv.distinct,
    λ x. (
      inv.found x,
      λ d.
          let there : is_member x seen ≡ true = Descends-seen seen out inv x d.0 in
          let other : (root == x) ≡ false = elim (Bool-cases (root == x)) [
            | inl same ↦ absurd (d.1 (sym ((same_iff root x).0 same)))
            | inr differ ↦ differ
          ] in
          ground (arith, inv.seen_lem x),
    ),
  )

  walk-Found :
      (rounds : ℕ) (stack seen out : List ℕ)
      → length stack + unseen seen es < rounds
      → Inv stack seen out
      → (pids : List ℕ) × (walk children rounds stack seen out ≡ some pids) × Found pids
  unfolding walk
  walk-Found zero stack seen out enough inv = absurd (omega arith)
  walk-Found (suc rounds) [] seen out enough inv = (out, refl, finished seen out inv)
  walk-Found (suc rounds) (cur ∷ stack) seen out enough inv =
      elim (Bool-cases (is_member cur seen)) [
        | inl old ↦
            rw old
              (walk-Found rounds stack seen out (omega arith) (skip-Inv cur stack seen out old inv))
        | inr new ↦
            rw (new, children_lem cur)
              (walk-Found rounds (push_all (kids cur es) stack) (cur ∷ seen) (out ++ cur ∷ [])
                (omega (arith, length-push_all (kids cur es) stack, unseen-cons seen cur es new))
                (visit-Inv cur stack seen out new inv))
      ]

start :
    (es : List Entry) (root : ℕ)
    → Inv es root (collect [] es) (children_of es) (push_all (kids root es) []) (root ∷ []) []
start es root = record {
  on_stack = λ x h. child x (ground (arith, is_member-push_all x (kids root es) []));
  seen_lem = λ x. refl;
  found = λ x h. absurd (cc);
  closed = λ x c h k.
      let eq : x ≡ root = ground arith in
      let k' : is_member c (kids root es) ≡ true =
        subst (λ n. is_member c (kids n es) ≡ true) eq k in
      ground (arith, is_member-push_all c (kids root es) []);
  distinct = tt;
}

-- The walk over the snapshot ends within its fuel. It gives every process below the root other than
-- the root itself, and no other, each once.
pub descendants_exact :
    (es : List Entry) (root : ℕ)
    → (pids : List ℕ) × (descendant_pids es root ≡ some pids)
      × IsDistinct pids
      × ((x : ℕ) → (is_member x pids ≡ true) ↔ (Descends es root x × (x ≢ root)))
unfolding descendant_pids
descendants_exact es root =
    let (pids, e, exact) =
      walk-Found es root (collect [] es) (children_of es) (suc (length es))
        (push_all (kids root es) []) (root ∷ []) []
        (omega
          (arith, length-push_all (kids root es) [], unseen-cons [] root es refl, unseen-nil es))
        (start es root) in
    (pids, rw (children_of es root) e, exact.0, exact.1)
