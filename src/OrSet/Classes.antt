-- ===== src/OrSet/Classes.antt =====
-- OR-Sets up to what they know of each tag. Merging is a total operation on the classes; where the
-- counters are exact, or_set.c does not tell the members of a class apart.
use mathlib.Core.Option.{some-injective}
use mathlib.Core.Quot.Quotient
use cauchy.Prelude.{ℕ, ◌+◌, ◌<◌, ◌≡◌, refl, sym, ap, ◌∙◌, some, List, length, subst, Bool_ext}
use cauchy.Types.{Uid, Result, ok}
use cauchy.Cells.{u64_mod}
use cauchy.Convergence.Classes.{
  State, same_view, Abstract, merge_classes, merge_classes_comm, merge_classes_assoc,
  merge_classes_idem,
}
use cauchy.GSet.{granted}
use cauchy.OrSet.{OrSet, contains, count}
use cauchy.OrSet.Merge.{merge, merge_all, entries, equals, kept}
use cauchy.OrSet.Status.{status_of}
use cauchy.OrSet.Content.{same_status-contains}
use cauchy.OrSet.Replicas.{Statuses, statuses, or_sets, succeeded}
use cauchy.OrSet.Counts.{IsCounted, merge_all-IsCounted}
use cauchy.OrSet.Same.{same_status-count, same_status-equals}

succeeded_kept : (all : Result × OrSet) (c : OrSet) → succeeded (kept all) ≡ some c → all.1 ≡ c
succeeded_kept (ok, x) c run = some-injective x c run
succeeded_kept (_, x) c run = absurd (cc run)

module _ (written : Uid → List ℕ) where
  abbrev pub OrSets : Type 0
  OrSets = Abstract (or_sets written)

  abbrev pub class_of : State (or_sets written) → OrSets
  class_of a = Quotient.mk (same_view (or_sets written)) a

  abbrev pub join : OrSets → OrSets → OrSets
  join = merge_classes (or_sets written)

  pub same_members :
      (bytes : List ℕ) (size : ℕ) (a b : State (or_sets written))
      → (or_sets written).view a.0 ≡ (or_sets written).view b.0
      → contains (some a.0) (some bytes) size ≡ contains (some b.0) (some bytes) size
  same_members bytes size a b same =
      let at = λ (h : ℕ) (t : Uid). ap (λ (f : Statuses). f h t) same in
      Bool_ext _ _ (same_status-contains written a.0 b.0 bytes size a.1 b.1 at)
        (same_status-contains written b.0 a.0 bytes size b.1 a.1 (λ h t. sym (at h t)))

  -- A merge that succeeded has exact counters.
  merge-IsCounted :
      (a b c : OrSet)
      → IsCounted a
      → a.entry_count + length (entries b) < u64_mod
      → succeeded (merge (λ k. granted) (some a) (some b)) ≡ some c
      → IsCounted c
  unfolding merge
  merge-IsCounted a b c counted room run =
      let all = merge_all (λ k. granted) 0 a (entries b) in
      subst IsCounted (succeeded_kept all c run)
        (merge_all-IsCounted (λ k. granted) 0 a (entries b) counted room)

  -- OR-Sets whose entries agree with what was written, and whose counters are exact, merge with
  -- memory to the same set in either order, as far as or_set.c can tell: both merges succeed, with
  -- exact counters, equal counts and equal members, and no third set is equal to one of them and
  -- not to the other, on either side of `equals`. This needs that the entries of both sets together
  -- fit the 64 bits of a counter. The class of the result, its knowledge of every tag, depends on
  -- the classes of the two sets only, by an operation that is commutative, associative and
  -- idempotent.
  pub orset_classes :
      (a b : State (or_sets written)) (p q r : OrSets)
      → IsCounted a.0
      → IsCounted b.0
      → a.0.entry_count + length (entries b.0) < u64_mod
      → b.0.entry_count + length (entries a.0) < u64_mod
      → (c : State (or_sets written)) × (d : State (or_sets written)) × (succeeded
            (merge (λ k. granted) (some a.0) (some b.0))
          ≡ some c.0)
        × (succeeded (merge (λ k. granted) (some b.0) (some a.0)) ≡ some d.0)
        × IsCounted c.0
        × IsCounted d.0
        × (count (some d.0) ≡ count (some c.0))
        × ((z : OrSet)
            → (equals (some z) (some c.0) ≡ equals (some z) (some d.0))
              × (equals (some c.0) (some z) ≡ equals (some d.0) (some z)))
        × ((bytes : List ℕ) (size : ℕ)
            → contains (some c.0) (some bytes) size ≡ contains (some d.0) (some bytes) size)
        × (join (class_of a) (class_of b) ≡ class_of c)
        × (join (class_of b) (class_of a) ≡ class_of d)
        × (join p q ≡ join q p)
        × (join (join p q) r ≡ join p (join q r))
        × (join p p ≡ p)
  unfolding Quotient.lift₂ count
  orset_classes a b p q r a_counted b_counted room room' =
      let crdt = or_sets written in
      let (c, run, c_ok, seen) = crdt.merge-view a.0 b.0 a.1 b.1 in
      let (d, run', d_ok, seen') = crdt.merge-view b.0 a.0 b.1 a.1 in
      let same : status_of c ≡ status_of d =
        seen ∙ statuses.join_comm (status_of a.0) (status_of b.0) ∙ sym seen' in
      let at = λ (h : ℕ) (t : Uid). ap (λ (f : Statuses). f h t) same in
      let c_counted = merge-IsCounted a.0 b.0 c a_counted room run in
      let d_counted = merge-IsCounted b.0 a.0 d b_counted room' run' in
      (
        (c, c_ok),
        (d, d_ok),
        run,
        run',
        c_counted,
        d_counted,
        sym (same_status-count written c d c_ok d_ok at c_counted d_counted),
        λ z. same_status-equals written c d z c_ok d_ok c_counted d_counted at,
        λ bytes size. same_members bytes size (c, c_ok) (d, d_ok) same,
        refl,
        refl,
        merge_classes_comm crdt p q,
        merge_classes_assoc crdt p q r,
        merge_classes_idem crdt p,
      )
