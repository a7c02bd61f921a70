-- ===== src/Vclock/Compare.antt =====
-- The causal order of clocks: `compare`, the three tests on it, and what updates do to it.
use cauchy.Prelude.{
  ℕ, ◌+◌, ◌%◌, ◌≤◌, ◌<◌, ◌≡◌, ◌≢◌, refl, Bool, true, Option, some, ◌==◌, get_or-set, ◌||◌, fun_ext,
  set as set_cell, if◌then◌else◌, arith, Bool-cases, inl, inr, ◌↔◌, subst,
}
use cauchy.Types.{Causality, happens_before, concurrent, happens_after, equal, same_causality}
use cauchy.Cells.{u64_mod, at, cell}
use cauchy.Cells.Order.{Precedes, Means, causality_iff}
use cauchy.Vclock
use cauchy.Vclock.{Vclock, IsValid, get, compare, increment, merge}
use cauchy.Vclock.Merge.{merge-get}

get-cell : (a : Vclock) (i : ℕ) → cell a.entries a.num_nodes i ≡ get (some a) i
unfolding get
get-cell a i = ground arith

-- `cauchy_vclock_compare` answers each of the four verdicts exactly when it is true of the counts
-- of all nodes: equal, one strictly below the other either way, or each above the other somewhere.
pub compare_iff :
    (a b : Vclock) (c : Causality)
    → (compare (some a) (some b) ≡ c) ↔ Means c (get (some a)) (get (some b))
unfolding compare
compare_iff a b c =
    subst (λ f. (compare (some a) (some b) ≡ c) ↔ Means c f (get (some b))) (fun_ext (get-cell a))
      (subst (λ g. (compare (some a) (some b) ≡ c) ↔ Means c (cell a.entries a.num_nodes) g)
        (fun_ext (get-cell b)) (causality_iff a.entries a.num_nodes b.entries b.num_nodes c))

same_causality_iff : (c d : Causality) → (same_causality c d ≡ true) ↔ (c ≡ d)
same_causality_iff c d = ground arith

happens_before_iff :
    (a b : Vclock)
    → (Vclock.happens_before (some a) (some b) ≡ true) ↔ Precedes (get (some a)) (get (some b))
unfolding Vclock.happens_before
happens_before_iff a b = (
  λ h. (compare_iff a b happens_before).0 ((same_causality_iff _ happens_before).0 h),
  λ h. (same_causality_iff _ happens_before).1 ((compare_iff a b happens_before).1 h),
)

pub equals_iff :
    (a b : Vclock)
    → (Vclock.equals (some a) (some b) ≡ true) ↔ ((i : ℕ) → get (some a) i ≡ get (some b) i)
unfolding Vclock.equals
equals_iff a b = (
  λ h. (compare_iff a b equal).0 ((same_causality_iff _ equal).0 h),
  λ h. (same_causality_iff _ equal).1 ((compare_iff a b equal).1 h),
)

-- Happening before is a strict order on clocks: it is transitive, and no clock is before itself.
pub happens_before_strict :
    (a b c : Vclock)
    → (Vclock.happens_before (some a) (some b) ≡ true
        → Vclock.happens_before (some b) (some c) ≡ true
        → Vclock.happens_before (some a) (some c) ≡ true)
      × (Vclock.happens_before (some a) (some a) ≢ true)
happens_before_strict a b c = (
  λ p q.
      let (le, (i, lt)) = (happens_before_iff a b).0 p in
      let (le', _) = (happens_before_iff b c).0 q in
      (happens_before_iff a c).1 (λ j. omega (arith, le j, le' j), (i, omega (arith, le' i))),
  λ p. let (le, (i, lt)) = (happens_before_iff a a).0 p in omega arith,
)

abbrev pub bumped : Vclock → ℕ → Vclock
bumped a node_id = record a {
  entries = set_cell a.entries node_id ((at a.entries node_id + 1) % u64_mod);
}

pub increment-bumped :
    (a : Vclock) (node_id : ℕ)
    → node_id < a.num_nodes
    → increment (some a) node_id ≡ some (bumped a node_id)
unfolding increment
increment-bumped a node_id h = ground arith

pub get-bumped :
    (a : Vclock) (node_id : ℕ)
    → IsValid a
    → node_id < a.num_nodes
    → (i : ℕ)
    → get (some (bumped a node_id)) i
      ≡ (if i == node_id then (get (some a) i + 1) % u64_mod else get (some a) i)
unfolding get
get-bumped a node_id v h i = ground (
  arith,
  get_or-set a.entries node_id i ((at a.entries node_id + 1) % u64_mod) 0
      (omega (arith, v.width, v.active)),
)

pub get-lt : (a : Vclock) → IsValid a → (i : ℕ) → get (some a) i < u64_mod
unfolding get
get-lt a v i = ground (arith, v.fits i)

-- A local event at an active node puts the clock after what it was, unless the count of that node
-- was the largest 64-bit number: then it wraps to zero, and the clock goes back.
pub compare-increment :
    (a : Vclock) (node_id : ℕ)
    → IsValid a
    → node_id < a.num_nodes
    → compare (some a) (increment (some a) node_id)
      ≡ (if get (some a) node_id + 1 == u64_mod then happens_after else happens_before)
compare-increment a node_id v h =
    let b = bumped a node_id in
    let cells = get-bumped a node_id v h in
    elim (Bool-cases (get (some a) node_id + 1 == u64_mod)) [
      | inl wraps ↦
          rw (increment-bumped a node_id h, wraps)
            ((compare_iff a b happens_after).1
              (λ i. ground (arith, cells i), (node_id, ground (arith, cells node_id))))
      | inr fits ↦
          rw (increment-bumped a node_id h, fits)
            ((compare_iff a b happens_before).1 (
              λ i. ground (arith, cells i, get-lt a v i),
              (node_id, ground (arith, cells node_id, get-lt a v node_id)),
            ))
    ]

-- `x` is equal to `y` or happens before it.
abbrev pub at_most : Option Vclock → Option Vclock → Bool
at_most x y = same_causality (compare x y) equal || same_causality (compare x y) happens_before

at_most_iff :
    (a b : Vclock)
    → (at_most (some a) (some b) ≡ true) ↔ ((i : ℕ) → get (some a) i ≤ get (some b) i)
at_most_iff a b = (to (compare (some a) (some b)) refl, from)
  where
    to :
        (c : Causality)
        → compare (some a) (some b) ≡ c
        → (same_causality c equal || same_causality c happens_before) ≡ true
        → (i : ℕ) → get (some a) i ≤ get (some b) i
    to happens_before e h = ((compare_iff a b happens_before).0 e).0
    to concurrent e h = cc
    to happens_after e h = cc
    to equal e h = λ i. omega (arith, (compare_iff a b equal).0 e i)

    from : ((i : ℕ) → get (some a) i ≤ get (some b) i) → at_most (some a) (some b) ≡ true
    from le = cases (compare (some a) (some b)) refl
      where
        cases :
            (c : Causality)
            → compare (some a) (some b) ≡ c
            → (same_causality c equal || same_causality c happens_before) ≡ true
        cases happens_before e = refl
        cases equal e = refl
        cases concurrent e =
            let (_, (j, gt)) = (compare_iff a b concurrent).0 e in absurd (omega (arith, le j))
        cases happens_after e =
            let (_, (j, gt)) = (compare_iff a b happens_after).0 e in absurd (omega (arith, le j))

-- The merge of two well-formed clocks is their least upper bound in the causal order: both are at
-- most the merge, and it is at most any clock that both are at most.
pub merge_least :
    (a b w : Vclock)
    → IsValid a
    → IsValid b
    → (at_most (some a) (merge (some a) (some b)) ≡ true)
      × (at_most (some b) (merge (some a) (some b)) ≡ true)
      × (at_most (some a) (some w) ≡ true
          → at_most (some b) (some w) ≡ true
          → at_most (merge (some a) (some b)) (some w) ≡ true)
merge_least a b w va vb =
    let (c, run, _, _, counts) = merge-get a b va vb in
    (
      rw run ((at_most_iff a c).1 (λ i. omega (arith, counts i))),
      rw run ((at_most_iff b c).1 (λ i. omega (arith, counts i))),
      λ p q. rw run (
          (at_most_iff c w).1
            (λ i. omega (arith, counts i, (at_most_iff a w).0 p i, (at_most_iff b w).0 q i))),
    )
