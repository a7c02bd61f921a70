-- ===== src/PnCounter/Merge.antt =====
-- Merging as a join of both counters, and the place of PN-counters among the replicated types.
use cauchy.Prelude.{◌≡◌, ap, ap₂, some, List, ◌↔◌, true, and_true}
use cauchy.Cells.View.{View, view_lattice}
use cauchy.Convergence.{
  Crdt, pair_lattice, SameStates, AllStates, deliver, merge_comm, merge_assoc, merge_idem,
  deliver_agree,
}
use cauchy.GCounter.Merge.{counter_equals_iff}
use cauchy.GCounter.Merge as Counters
use cauchy.PnCounter.{PnCounter, IsValid, merge, equals}

abbrev pub view : PnCounter → View × View
view pn = (Counters.view pn.positive, Counters.view pn.negative)

-- A well-formed counter is determined by what it shows.
pub view_injective : (a b : PnCounter) → IsValid a → IsValid b → view a ≡ view b → a ≡ b
view_injective a b va vb e = λ i. record { positive = up i; negative = down i }
  where
    up : a.positive ≡ b.positive
    up =
        Counters.view_injective a.positive b.positive va.positive vb.positive
          (ap (λ (v : View × View). v.0) e)

    down : a.negative ≡ b.negative
    down =
        Counters.view_injective a.negative b.negative va.negative vb.negative
          (ap (λ (v : View × View). v.1) e)

pub merge-view :
    (a b : PnCounter)
    → IsValid a
    → IsValid b
    → (c : PnCounter) × (merge (some a) (some b) ≡ some c)
      × IsValid c
      × (view c ≡ (pair_lattice view_lattice view_lattice).join (view a) (view b))
unfolding merge
merge-view a b va vb =
    let (p, p_run, p_ok, p_view) =
      Counters.merge-view a.positive b.positive va.positive vb.positive in
    let (n, n_run, n_ok, n_view) =
      Counters.merge-view a.negative b.negative va.negative vb.negative in
    (
      record { positive = p; negative = n },
      rw (merge, p_run, n_run),
      record { positive = p_ok; negative = n_ok },
      ap₂ (λ (u v : View). (let w : View × View = (u, v) in w)) p_view n_view,
    )

abbrev pub pn_counters : Crdt PnCounter (View × View)
pn_counters = record {
  lattice = pair_lattice view_lattice view_lattice;
  IsState = IsValid;
  view = view;
  merge = λ a b. merge (some a) (some b);
  merge-view = merge-view;
}

-- On well-formed counters `cauchy_pncounter_merge` is commutative, associative and idempotent.
pub pn_merge_laws :
    (a b c : PnCounter)
    → IsValid a
    → IsValid b
    → IsValid c
    → (merge (some a) (some b) ≡ merge (some b) (some a))
      × (merge (merge (some a) (some b)) (some c) ≡ merge (some a) (merge (some b) (some c)))
      × (merge (some a) (some a) ≡ some a)
pn_merge_laws a b c va vb vc =
    let (_, _, run, run', assoc) = merge_assoc pn_counters view_injective a b c va vb vc in
    (
      merge_comm pn_counters view_injective a b va vb,
      rw (run, run') assoc,
      merge_idem pn_counters view_injective a va,
    )

-- Copies of a well-formed counter that merge the same well-formed counters, in any order and any
-- number of times, end equal.
pub pn_counters_converge :
    (a : PnCounter) (xs ys : List PnCounter)
    → IsValid a
    → AllStates pn_counters xs
    → AllStates pn_counters ys
    → SameStates pn_counters xs ys
    → (c : PnCounter) × (deliver pn_counters a xs ≡ some c) × (deliver pn_counters a ys ≡ some c)
pn_counters_converge = deliver_agree pn_counters view_injective

-- `cauchy_pncounter_equals` tells well-formed counters apart exactly when they differ as states.
pub pn_equals_iff :
    (a b : PnCounter) → IsValid a → IsValid b → (equals (some a) (some b) ≡ true) ↔ (a ≡ b)
unfolding equals
pn_equals_iff a b va vb =
    let up = counter_equals_iff a.positive b.positive va.positive vb.positive in
    let down = counter_equals_iff a.negative b.negative va.negative vb.negative in
    (
      λ h i. record {
        positive = up.0 (and_true _ _ h).0 i;
        negative = down.0 (and_true _ _ h).1 i;
      },
      λ e. rw (
        up.1 (ap (λ (g : PnCounter). g.positive) e),
        down.1 (ap (λ (g : PnCounter). g.negative) e),
      ),
    )
