-- ===== src/TwoPhaseSet/Converge.antt =====
-- 2P-Sets among the replicated types, seen as their two sets.
use cauchy.Prelude.{ℕ, ◌≡◌, refl, ap, ◌&&◌, not, Option, none, some, List}
use cauchy.Types.{Result, ok}
use cauchy.Convergence.{Crdt, pair_lattice, SameStates, AllStates, deliver, deliver_converges}
use cauchy.GSet
use cauchy.GSet.{granted}
use cauchy.GSet.Union.{IsPlaced}
use cauchy.GSet.Converge.{Members, unions, union, gset_union}
use cauchy.TwoPhaseSet.{TwoPhaseSet, contains, merge}

-- A 2P-Set whose two sets are there and well formed.
pub record IsPair (pset : TwoPhaseSet) : Type 0 where
  pub added : GSet.GSet
  pub removed : GSet.GSet
  pub added_here : pset.added ≡ some added
  pub removed_here : pset.removed ≡ some removed
  pub added_ok : IsPlaced added
  pub removed_ok : IsPlaced removed

abbrev pub members_of : Option GSet.GSet → Members
members_of gset bytes size = GSet.contains gset (some bytes) size

-- What was added, and what was removed.
abbrev pub history : TwoPhaseSet → Members × Members
history pset = (members_of pset.added, members_of pset.removed)

abbrev pub succeeded : Result × Option TwoPhaseSet → Option TwoPhaseSet
succeeded (ok, pset) = pset
succeeded (_, pset) = none

pub pset_union :
    (a b : TwoPhaseSet)
    → IsPair a
    → IsPair b
    → (c : TwoPhaseSet) × (succeeded (merge (λ i. granted) (λ i. granted) (some a) (some b))
        ≡ some c)
      × IsPair c
      × (history c ≡ (
        union (members_of a.added) (members_of b.added),
        union (members_of a.removed) (members_of b.removed),
      ))
unfolding merge
pset_union a b pa pb =
    let (added, run, added_ok, seen) = gset_union pa.added pb.added pa.added_ok pb.added_ok in
    let (removed, run', removed_ok, seen') =
      gset_union pa.removed pb.removed pa.removed_ok pb.removed_ok in
    (
      record { added = some added; removed = some removed },
      rw (pa.added_here, pb.added_here, run, pa.removed_here, pb.removed_here, run'),
      record {
        added = added;
        removed = removed;
        added_here = refl;
        removed_here = refl;
        added_ok = added_ok;
        removed_ok = removed_ok;
      },
      rw (pa.added_here, pb.added_here, pa.removed_here, pb.removed_here) (λ i. (seen i, seen' i)),
    )

abbrev pub two_phase_sets : Crdt TwoPhaseSet (Members × Members)
two_phase_sets = record {
  lattice = pair_lattice unions unions;
  IsState = IsPair;
  view = history;
  merge = λ a b. succeeded (merge (λ i. granted) (λ i. granted) (some a) (some b));
  merge-view = pset_union;
}

-- Two well-formed sets with the same additions and removals that merge the same well-formed sets
-- with memory, each in its own order and as often as it likes, end with the same members.
pub pset_converges :
    (a b : TwoPhaseSet) (xs ys : List TwoPhaseSet)
    → IsPair a
    → IsPair b
    → history a ≡ history b
    → AllStates two_phase_sets xs
    → AllStates two_phase_sets ys
    → SameStates two_phase_sets xs ys
    → (c : TwoPhaseSet) × (d : TwoPhaseSet) × (deliver two_phase_sets a xs ≡ some c)
      × (deliver two_phase_sets b ys ≡ some d)
      × ((bytes : List ℕ) (size : ℕ)
          → contains (some c) (some bytes) size ≡ contains (some d) (some bytes) size)
unfolding contains
pset_converges a b xs ys pa pb start hx hy same =
    let (c, d, run, run', seen, _, _) =
      deliver_converges two_phase_sets a b xs ys pa pb start hx hy same in
    (
      c,
      d,
      run,
      run',
      λ bytes size. ap (λ (h : Members × Members). h.0 bytes size && not (h.1 bytes size)) seen,
    )
