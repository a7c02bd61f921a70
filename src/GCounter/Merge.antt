-- ===== src/GCounter/Merge.antt =====
-- Merging counters as a join, equality of counters, and their place among the replicated types.
use mathlib.Core.Option.{some-injective}
use cauchy.Prelude.{
  ℕ, ◌≡◌, refl, max, true, some, List, ltb, ◌==◌, ◌&&◌, loop, ap, if◌then◌else◌, arith, length, ◌↔◌,
  all_below_iff, all_below, ==_iff, fun_ext, subst,
}
use cauchy.Types.{Causality}
use cauchy.Cells.{at, cell}
use cauchy.Cells.Order.{Means, causality_iff}
use cauchy.Cells.Bounds.{at-loop, guarded_set-IsCellwise, max-IsCells, cells_ext}
use cauchy.Cells.View.{View, view_lattice, view_cells, view_cells-eq, join_views}
use cauchy.Convergence.{
  Crdt, SameStates, AllStates, deliver, merge_comm, merge_assoc, merge_idem, deliver_agree,
}
use cauchy.GCounter.{GCounter, IsValid, get, raise, merge, equals, compare}

-- What `merge` leaves in `*dst`.
abbrev pub joined : GCounter → GCounter → GCounter
joined a b = record {
  counts = loop (max a.num_nodes b.num_nodes) (raise b.counts b.num_nodes) a.counts;
  num_nodes = if ltb a.num_nodes b.num_nodes then b.num_nodes else a.num_nodes;
}

pub at-joined :
    {a b : GCounter}
    → IsValid a
    → IsValid b
    → (length (joined a b).counts ≡ length a.counts)
      × ((j : ℕ) → at (joined a b).counts j ≡ max (at a.counts j) (at b.counts j))
at-joined {a} {b} va vb =
    let (size, cells) =
      at-loop (raise b.counts b.num_nodes)
        (λ i x. if ltb i b.num_nodes && ltb x (at b.counts i) then at b.counts i else x)
        (guarded_set-IsCellwise (λ i x. ltb i b.num_nodes && ltb x (at b.counts i)) (at b.counts))
        (max a.num_nodes b.num_nodes) a.counts (omega (arith, va.width, va.active, vb.active)) in
    (size, λ j. ground (arith, cells j, va.clear j, vb.clear j))

pub merge-joined : (a b c : GCounter) → merge (some a) (some b) ≡ some c → joined a b ≡ c
unfolding merge
merge-joined a b c e = some-injective (joined a b) c e

pub num_nodes-joined : (a b : GCounter) → (joined a b).num_nodes ≡ max a.num_nodes b.num_nodes
num_nodes-joined a b = ground arith

pub joined-IsValid : {a b : GCounter} → IsValid a → IsValid b → IsValid (joined a b)
joined-IsValid {a} {b} va vb =
    let (size, cells) = at-joined va vb in rw (num_nodes-joined a b) (max-IsCells va vb size cells)

abbrev pub view : GCounter → View
view gc = view_cells gc.counts gc.num_nodes

-- A well-formed counter is determined by what it shows.
pub view_injective : (a b : GCounter) → IsValid a → IsValid b → view a ≡ view b → a ≡ b
view_injective a b va vb e = λ i. record { counts = cells i; num_nodes = nodes i }
  where
    cells : a.counts ≡ b.counts
    cells = cells_ext va vb (λ j. ap (λ (v : View). v.0 j) e)

    nodes : a.num_nodes ≡ b.num_nodes
    nodes = ap (λ (v : View). v.1) e

pub merge-view :
    (a b : GCounter)
    → IsValid a
    → IsValid b
    → (c : GCounter) × (merge (some a) (some b) ≡ some c)
      × IsValid c
      × (view c ≡ join_views (view a) (view b))
unfolding merge
merge-view a b va vb = (
  joined a b,
  refl,
  joined-IsValid va vb,
  view_cells-eq (joined a b).counts (joined a b).num_nodes _ _ (at-joined va vb).1
      (num_nodes-joined a b),
)

abbrev pub counters : Crdt GCounter View
counters = record {
  lattice = view_lattice;
  IsState = IsValid;
  view = view;
  merge = λ a b. merge (some a) (some b);
  merge-view = merge-view;
}

-- On well-formed counters `cauchy_gcounter_merge` is commutative, associative and idempotent.
pub counter_merge_laws :
    (a b c : GCounter)
    → IsValid a
    → IsValid b
    → IsValid c
    → (merge (some a) (some b) ≡ merge (some b) (some a))
      × (merge (merge (some a) (some b)) (some c) ≡ merge (some a) (merge (some b) (some c)))
      × (merge (some a) (some a) ≡ some a)
counter_merge_laws a b c va vb vc =
    let (_, _, run, run', assoc) = merge_assoc counters view_injective a b c va vb vc in
    (
      merge_comm counters view_injective a b va vb,
      rw (run, run') assoc,
      merge_idem counters view_injective a va,
    )

-- Copies of a well-formed counter that merge the same well-formed counters, in any order and any
-- number of times, end equal.
pub counters_converge :
    (a : GCounter) (xs ys : List GCounter)
    → IsValid a
    → AllStates counters xs
    → AllStates counters ys
    → SameStates counters xs ys
    → (c : GCounter) × (deliver counters a xs ≡ some c) × (deliver counters a ys ≡ some c)
counters_converge = deliver_agree counters view_injective

get-cell : (a : GCounter) (i : ℕ) → cell a.counts a.num_nodes i ≡ get (some a) i
unfolding get
get-cell a i = ground arith

pub get-at : (a : GCounter) → IsValid a → (i : ℕ) → get (some a) i ≡ at a.counts i
unfolding get
get-at a v i = ground (arith, v.clear i)

-- `cauchy_gcounter_compare` answers each of the four verdicts exactly when it is true of the
-- counts of all nodes.
pub counter_compare_iff :
    (a b : GCounter) (c : Causality)
    → (compare (some a) (some b) ≡ c) ↔ Means c (get (some a)) (get (some b))
unfolding compare
counter_compare_iff a b c =
    subst (λ f. (compare (some a) (some b) ≡ c) ↔ Means c f (get (some b))) (fun_ext (get-cell a))
      (subst (λ g. (compare (some a) (some b) ≡ c) ↔ Means c (cell a.counts a.num_nodes) g)
        (fun_ext (get-cell b)) (causality_iff a.counts a.num_nodes b.counts b.num_nodes c))

-- `cauchy_gcounter_equals` tells well-formed counters apart exactly when they differ as states,
-- the cells behind the active nodes included.
pub counter_equals_iff :
    (a b : GCounter) → IsValid a → IsValid b → (equals (some a) (some b) ≡ true) ↔ (a ≡ b)
unfolding equals
counter_equals_iff a b va vb =
    let same = all_below_iff a.num_nodes (λ i. at a.counts i == at b.counts i) in
    (
      λ h.
          let nodes : a.num_nodes ≡ b.num_nodes = ground arith in
          let loop_true : all_below a.num_nodes (λ i. at a.counts i == at b.counts i) ≡ true =
            ground arith in
          view_injective a b va vb (
            view_cells-eq a.counts a.num_nodes _ _
              (λ i. ground (arith, same.0 loop_true i, va.clear i, vb.clear i)) nodes),
      λ e.
          let nodes = ap (λ (g : GCounter). g.num_nodes) e in
          rw ((==_iff a.num_nodes b.num_nodes).1 nodes) (
            same.1 (λ i lt.
              (==_iff (at a.counts i) (at b.counts i)).1 (ap (λ (g : GCounter). at g.counts i) e))),
    )
