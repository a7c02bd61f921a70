-- ===== src/Convergence/Classes.antt =====
-- The states of a replicated type up to what they make observable: a quotient, on which merging is
-- an operation that cannot fail.
use mathlib.Core.Quot.{Setoid, Quotient, Quotient-set}
use mathlib.Core.Quot.Quotient
use mathlib.Core.Option.{some-injective}
use cauchy.Prelude.{◌≡◌, refl, sym, ap, subst, ◌∙◌, some}
use cauchy.Convergence.{Crdt}

module _ {ℓ} {S V : Type ℓ} (crdt : Crdt S V) where
  open crdt use {lattice, IsState, view, merge, merge-view}
  open lattice use {join, join_comm, join_assoc, join_idem}

  abbrev pub State : Type ℓ
  State = (s : S) × IsState s

  abbrev pub same_view : Setoid {ℓ, ℓ} State
  same_view = record {
    r = λ a b. view a.0 ≡ view b.0;
    iseqv = record { refl = λ a. refl; symm = λ a b. sym; trans = λ a b c p q. p ∙ q };
  }

  abbrev pub Abstract : Type ℓ
  Abstract = Quotient same_view

  abbrev pub merged : State → State → State
  merged a b = let (c, run, c_ok, seen) = merge-view a.0 b.0 a.1 b.1 in (c, c_ok)

  pub merged-view : (a b : State) → view (merged a b).0 ≡ join (view a.0) (view b.0)
  merged-view a b = (merge-view a.0 b.0 a.1 b.1).3

  pub merged_congr :
      (a b a' b' : State)
      → view a.0 ≡ view a'.0
      → view b.0 ≡ view b'.0
      → view (merged a b).0 ≡ view (merged a' b').0
  merged_congr a b a' b' p q = cc (merged-view a b, merged-view a' b')

  abbrev pub merge_classes : Abstract → Abstract → Abstract
  merge_classes =
      Quotient.lift₂ same_view same_view (Quotient-set same_view)
        (λ a b. Quotient.mk same_view (merged a b))
        (λ a b a' b' p q. Quotient.sound same_view (merged_congr a b a' b' p q))

  -- What the function returns on two states is in the class that their classes merge to.
  pub merge_classes-merge :
      (a b : State) (c : S)
      → merge a.0 b.0 ≡ some c
      → (c_ok : IsState c) × (merge_classes (Quotient.mk same_view a) (Quotient.mk same_view b)
          ≡ Quotient.mk same_view (c, c_ok))
  unfolding Quotient.lift₂
  merge_classes-merge a b c run =
      let (d, run', d_ok, seen) = merge-view a.0 b.0 a.1 b.1 in
      let same : d ≡ c = some-injective _ _ (sym run' ∙ run) in
      (
        subst IsState same d_ok,
        Quotient.sound same_view {a = merged a b} {b = (c, subst IsState same d_ok)} (ap view same),
      )

  pub merge_classes_comm : (p q : Abstract) → merge_classes p q ≡ merge_classes q p
  unfolding Quotient.lift₂
  merge_classes_comm =
      Quotient.ind₂ same_view same_view (λ p q. Quotient-set same_view _ _)
        (λ a b.
          Quotient.sound same_view {a = merged a b} {b = merged b a}
            (merged-view a b ∙ join_comm (view a.0) (view b.0) ∙ sym (merged-view b a)))

  pub merge_classes_assoc :
      (p q r : Abstract) → merge_classes (merge_classes p q) r ≡ merge_classes p (merge_classes q r)
  unfolding Quotient.lift₂
  merge_classes_assoc p q r =
      Quotient.induction_on₃ same_view same_view same_view
        {motive = λ p q r.
          merge_classes (merge_classes p q) r ≡ merge_classes p (merge_classes q r)}
        (λ p q r. Quotient-set same_view _ _) p q r
        (λ a b c. Quotient.sound same_view {a = merged (merged a b) c} {b = merged a (merged b c)} (
          cc (
            merged-view (merged a b) c,
            merged-view a b,
            merged-view a (merged b c),
            merged-view b c,
            join_assoc (view a.0) (view b.0) (view c.0),
          )))

  pub merge_classes_idem : (p : Abstract) → merge_classes p p ≡ p
  unfolding Quotient.lift₂
  merge_classes_idem =
      Quotient.ind same_view (λ p. Quotient-set same_view _ _)
        (λ a.
          Quotient.sound same_view {a = merged a a} {b = a}
            (merged-view a a ∙ join_idem (view a.0)))
