-- ===== src/Vclock/Merge.antt =====
-- `cauchy_vclock_merge` as a join, and the place of clocks among the replicated types.
use cauchy.Prelude.{ℕ, ◌≡◌, refl, max, some, List, ltb, loop, ap, if◌then◌else◌, arith, length}
use cauchy.Cells.{at}
use cauchy.Cells.Bounds.{at-loop, guarded_set-IsCellwise, max-IsCells, cells_ext}
use cauchy.Cells.View.{View, view_lattice, view_cells, view_cells-eq, join_views}
use cauchy.Convergence.{
  Crdt, SameStates, AllStates, deliver, merge_comm, merge_assoc, merge_idem, deliver_agree,
}
use cauchy.Vclock.{Vclock, IsValid, get, raise, merge}

-- What `merge` leaves in `*dst`.
abbrev joined : Vclock → Vclock → Vclock
joined a b = record {
  entries = loop (max a.num_nodes b.num_nodes) (raise b.entries) a.entries;
  num_nodes = if ltb a.num_nodes b.num_nodes then b.num_nodes else a.num_nodes;
}

at-joined :
    {a b : Vclock}
    → IsValid a
    → IsValid b
    → (length (joined a b).entries ≡ length a.entries)
      × ((j : ℕ) → at (joined a b).entries j ≡ max (at a.entries j) (at b.entries j))
at-joined {a} {b} va vb =
    let (size, cells) =
      at-loop (raise b.entries) (λ i x. if ltb x (at b.entries i) then at b.entries i else x)
        (guarded_set-IsCellwise (λ i x. ltb x (at b.entries i)) (at b.entries))
        (max a.num_nodes b.num_nodes) a.entries (omega (arith, va.width, va.active, vb.active)) in
    (size, λ j. ground (arith, cells j, va.clear j, vb.clear j))

num_nodes-joined : (a b : Vclock) → (joined a b).num_nodes ≡ max a.num_nodes b.num_nodes
num_nodes-joined a b = ground arith

joined-IsValid : {a b : Vclock} → IsValid a → IsValid b → IsValid (joined a b)
joined-IsValid {a} {b} va vb =
    let (size, cells) = at-joined va vb in rw (num_nodes-joined a b) (max-IsCells va vb size cells)

abbrev pub view : Vclock → View
view vc = view_cells vc.entries vc.num_nodes

view-joined :
    {a b : Vclock} → IsValid a → IsValid b → view (joined a b) ≡ join_views (view a) (view b)
view-joined {a} {b} va vb =
    view_cells-eq (joined a b).entries (joined a b).num_nodes _ _ (at-joined va vb).1
      (num_nodes-joined a b)

-- A well-formed clock is determined by what it shows.
pub view_injective : (a b : Vclock) → IsValid a → IsValid b → view a ≡ view b → a ≡ b
view_injective a b va vb e = λ i. record { entries = cells i; num_nodes = nodes i }
  where
    cells : a.entries ≡ b.entries
    cells = cells_ext va vb (λ j. ap (λ (v : View). v.0 j) e)

    nodes : a.num_nodes ≡ b.num_nodes
    nodes = ap (λ (v : View). v.1) e

pub merge-view :
    (a b : Vclock)
    → IsValid a
    → IsValid b
    → (c : Vclock) × (merge (some a) (some b) ≡ some c)
      × IsValid c
      × (view c ≡ join_views (view a) (view b))
unfolding merge
merge-view a b va vb = (joined a b, refl, joined-IsValid va vb, view-joined va vb)

abbrev pub clocks : Crdt Vclock View
clocks = record {
  lattice = view_lattice;
  IsState = IsValid;
  view = view;
  merge = λ a b. merge (some a) (some b);
  merge-view = merge-view;
}

-- Merging well-formed clocks gives a well-formed clock with the active nodes of either, in which
-- each node has the larger of its two counts.
pub merge-get :
    (a b : Vclock)
    → IsValid a
    → IsValid b
    → (c : Vclock) × (merge (some a) (some b) ≡ some c)
      × IsValid c
      × (c.num_nodes ≡ max a.num_nodes b.num_nodes)
      × ((i : ℕ) → get (some c) i ≡ max (get (some a) i) (get (some b) i))
unfolding merge get
merge-get a b va vb =
    let (size, cells) = at-joined va vb in
    (
      joined a b,
      refl,
      joined-IsValid va vb,
      num_nodes-joined a b,
      λ i. ground (arith, cells i, va.clear i, vb.clear i),
    )

-- On well-formed clocks `cauchy_vclock_merge` is commutative, associative and idempotent.
pub merge_semilattice :
    (a b c : Vclock)
    → IsValid a
    → IsValid b
    → IsValid c
    → (merge (some a) (some b) ≡ merge (some b) (some a))
      × (merge (merge (some a) (some b)) (some c) ≡ merge (some a) (merge (some b) (some c)))
      × (merge (some a) (some a) ≡ some a)
merge_semilattice a b c va vb vc =
    let (_, _, run, run', assoc) = merge_assoc clocks view_injective a b c va vb vc in
    (
      merge_comm clocks view_injective a b va vb,
      rw (run, run') assoc,
      merge_idem clocks view_injective a va,
    )

-- Copies of a well-formed clock that merge the same well-formed clocks, in any order and any
-- number of times, end equal.
pub merge_converges :
    (a : Vclock) (xs ys : List Vclock)
    → IsValid a
    → AllStates clocks xs
    → AllStates clocks ys
    → SameStates clocks xs ys
    → (c : Vclock) × (deliver clocks a xs ≡ some c) × (deliver clocks a ys ≡ some c)
merge_converges = deliver_agree clocks view_injective
