-- ===== src/GCounter/Value.antt =====
-- What updates and merges do to the value of a counter, and that they keep it well formed.
use mathlib.Core.Option.{some-injective}
use cauchy.Prelude.{
  ℕ, ◌+◌, ◌%◌, ◌≤◌, ◌<◌, ◌≡◌, refl, Option, none, some, leb, ◌==◌, set, subst, if◌then◌else◌, arith,
  Bool-cases, inl, inr, leb→lt, leb→le, get_or-set,
}
use cauchy.Cells.{max_nodes, u64_mod, at}
use cauchy.Cells.Bounds.{
  fresh-IsCells, set-IsCells, total, total-le, total_update, total_add, total_congr, total_clear,
  sum_cells-total,
}
use cauchy.GCounter.{
  GCounter, IsValid, IsValidPtr, init, create, copy, clone, increment, add, get, value, merge,
}
use cauchy.GCounter.Merge.{joined, at-joined, num_nodes-joined, joined-IsValid, get-at}

pub init-IsValid : (p : Option GCounter) (n : ℕ) → IsValidPtr (init p n)
unfolding init
init-IsValid none n = tt
init-IsValid (some gc) n = elim (Bool-cases (leb n max_nodes)) [
  | inl few ↦ rw few (fresh-IsCells n (leb→le n max_nodes few))
  | inr many ↦ rw many (fresh-IsCells max_nodes (omega arith))
]

-- `increment` adds one.
pub increment-add : (p : Option GCounter) (i : ℕ) → increment p i ≡ add p i 1
unfolding increment add
increment-add none i = refl
increment-add (some gc) i = refl

pub add-IsValid : (p : Option GCounter) (i d : ℕ) → IsValidPtr p → IsValidPtr (add p i d)
unfolding add
add-IsValid none i d h = tt
add-IsValid (some gc) i d h = elim (Bool-cases (leb gc.num_nodes i)) [
  | inl out ↦ rw out h
  | inr in_range ↦
      rw in_range (set-IsCells gc.counts i _ h (leb→lt gc.num_nodes i in_range) (omega arith))
]

pub copy-IsValid : (p q : Option GCounter) → IsValidPtr p → IsValidPtr q → IsValidPtr (copy p q)
unfolding copy
copy-IsValid none q hp hq = tt
copy-IsValid (some a) none hp hq = hp
copy-IsValid (some a) (some b) hp hq = hq

clone-IsValid : (p q : Option GCounter) → IsValidPtr q → IsValidPtr (clone p q)
unfolding clone
clone-IsValid p none h = tt
clone-IsValid none (some gc) h = tt
clone-IsValid (some b) (some gc) h = h

pub merge-IsValid : (p q : Option GCounter) → IsValidPtr p → IsValidPtr q → IsValidPtr (merge p q)
unfolding merge
merge-IsValid none q hp hq = tt
merge-IsValid (some a) none hp hq = hp
merge-IsValid (some a) (some b) hp hq = joined-IsValid hp hq

-- Every function that writes a counter leaves it well formed, for NULL pointers too: those that
-- create one from anything, the others from well-formed counters.
pub counter_updates-IsValid :
    (p q : Option GCounter) (n delta : ℕ)
    → IsValidPtr (init p n)
      × IsValidPtr (create p n)
      × (IsValidPtr q → IsValidPtr (clone p q))
      × (IsValidPtr p
          → IsValidPtr q
          → IsValidPtr (copy p q)
            × IsValidPtr (increment p n)
            × IsValidPtr (add p n delta)
            × IsValidPtr (merge p q))
unfolding create
counter_updates-IsValid p q n delta = (
  init-IsValid p n,
  init-IsValid p n,
  clone-IsValid p q,
  λ hp hq. (
    copy-IsValid p q hp hq,
    rw (increment-add p n) (add-IsValid p n 1 hp),
    add-IsValid p n delta hp,
    merge-IsValid p q hp hq,
  ),
)

pub value-total : (gc : GCounter) → value (some gc) ≡ total gc.num_nodes (at gc.counts) % u64_mod
unfolding value
value-total gc = sum_cells-total gc.num_nodes gc.counts

abbrev pub added : GCounter → ℕ → ℕ → GCounter
added gc i d = record gc { counts = set gc.counts i ((at gc.counts i + d) % u64_mod) }

pub add-added :
    (gc : GCounter) (i d : ℕ) → i < gc.num_nodes → add (some gc) i d ≡ some (added gc i d)
unfolding add
add-added gc i d h = ground arith

pub added-IsValid :
    (gc : GCounter) (i d : ℕ) → IsValid gc → i < gc.num_nodes → IsValid (added gc i d)
added-IsValid gc i d v h = set-IsCells gc.counts i _ v h (omega arith)

pub at-added :
    (gc : GCounter) (i d : ℕ)
    → IsValid gc
    → i < gc.num_nodes
    → (j : ℕ)
    → at (added gc i d).counts j
      ≡ (if j == i then (at gc.counts i + d) % u64_mod else at gc.counts j)
at-added gc i d v h j =
    get_or-set gc.counts i j ((at gc.counts i + d) % u64_mod) 0 (omega (arith, v.width, v.active))

value-added :
    (gc : GCounter) (i d : ℕ)
    → IsValid gc
    → i < gc.num_nodes
    → value (some (added gc i d)) ≡ (value (some gc) + d) % u64_mod
value-added gc i d v h = omega (
  arith,
  value-total gc,
  value-total (added gc i d),
  total_update gc.num_nodes i (at gc.counts) (at (added gc i d).counts) h
      (λ j ne. ground (arith, at-added gc i d v h j)),
  (let e : at (added gc i d).counts i ≡ (at gc.counts i + d) % u64_mod =
        ground (arith, at-added gc i d v h i) in
      e),
)

-- On a well-formed counter, adding `delta` for an active node raises the value by `delta`, in 64
-- bits; for another node it changes nothing; and incrementing adds one.
pub value-add :
    (gc : GCounter) (node_id delta : ℕ)
    → IsValid gc
    → (node_id < gc.num_nodes
        → value (add (some gc) node_id delta) ≡ (value (some gc) + delta) % u64_mod)
      × (gc.num_nodes ≤ node_id → add (some gc) node_id delta ≡ some gc)
      × (increment (some gc) node_id ≡ add (some gc) node_id 1)
value-add gc i d v = (
  λ h. rw (add-added gc i d h) (value-added gc i d v h),
  λ h. unfold add in ground arith,
  increment-add (some gc) i,
)

abbrev sum_of : GCounter → ℕ
sum_of gc = total gc.num_nodes (at gc.counts)

sum_of-joined :
    (a b : GCounter)
    → IsValid a
    → IsValid b
    → (sum_of a ≤ sum_of (joined a b))
      × (sum_of b ≤ sum_of (joined a b))
      × (sum_of (joined a b) ≤ sum_of a + sum_of b)
sum_of-joined a b va vb =
    let n = (joined a b).num_nodes in
    let (_, cells) = at-joined va vb in
    let f = at a.counts in
    let g = at b.counts in
    let h = at (joined a b).counts in
    let nodes = num_nodes-joined a b in
    let widen_a = total_clear a.num_nodes n f (omega (arith, nodes)) va.clear in
    let widen_b = total_clear b.num_nodes n g (omega (arith, nodes)) vb.clear in
    let above_a = total-le n f h (λ i. omega (arith, cells i)) in
    let above_b = total-le n g h (λ i. omega (arith, cells i)) in
    let below = total-le n h (λ i. f i + g i) (λ i. omega (arith, cells i)) in
    (
      omega (arith, widen_a, above_a),
      omega (arith, widen_b, above_b),
      omega (arith, widen_a, widen_b, below, total_add n f g),
    )

-- As long as the counts of the merge add up to a 64-bit number, its value is at least that of each
-- of the two well-formed counters and at most their sum.
pub value-merge :
    (a b c : GCounter)
    → IsValid a
    → IsValid b
    → merge (some a) (some b) ≡ some c
    → total c.num_nodes (get (some c)) < u64_mod
    → (value (some a) ≤ value (some c))
      × (value (some b) ≤ value (some c))
      × (value (some c) ≤ value (some a) + value (some b))
unfolding merge
value-merge a b c va vb run =
    subst
      (λ g.
        total g.num_nodes (get (some g)) < u64_mod
        → (value (some a) ≤ value (some g))
          × (value (some b) ≤ value (some g))
          × (value (some g) ≤ value (some a) + value (some b)))
      (some-injective (joined a b) c run)
      λ fits.
        let j = joined a b in
        let same =
          total_congr j.num_nodes (get (some j)) (at j.counts)
            (λ i lt. get-at j (joined-IsValid va vb) i) in
        let sums = sum_of-joined a b va vb in
        omega (arith, value-total a, value-total b, value-total j, sums, same)

-- An addition for an active node, in one piece.
pub add_lem :
    (gc : GCounter) (i d : ℕ)
    → IsValid gc
    → i < gc.num_nodes
    → (c : GCounter) × (add (some gc) i d ≡ some c)
      × IsValid c
      × (value (some c) ≡ (value (some gc) + d) % u64_mod)
add_lem gc i d v h =
    (added gc i d, add-added gc i d h, added-IsValid gc i d v h, value-added gc i d v h)
