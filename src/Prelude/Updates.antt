-- ===== src/Prelude/Updates.antt =====
-- Functions that are changed at one argument.
use Prim.Native.Nat.{ℕ}
use mathlib.Core.Path.{sym, subst}
use mathlib.Core.Logic.{◌≢◌, inl, inr}
use cauchy.Prelude.Tests.{◌==◌, ==_iff, Bool-cases, if◌then◌else◌}

abbrev pub update {ℓ} : {A : Type ℓ} → (ℕ → A) → ℕ → A → ℕ → A
update f i a j = if j == i then a else f j

-- What holds of the new value at `i`, and of the old values, holds of the update.
pub update_elim {ℓ} :
    {A : Type ℓ} (P : ℕ → A → Type 0) (f : ℕ → A) (i : ℕ) (a : A)
    → P i a
    → ((j : ℕ) → P j (f j))
    → (j : ℕ) → P j (update f i a j)
update_elim P f i a here other j = elim (Bool-cases (j == i)) [
  | inl same ↦ rw same (subst (λ k. P k a) (sym ((==_iff j i).0 same)) here)
  | inr differ ↦ rw differ (other j)
]

-- The same, where the old value at `i` does not matter.
pub update_others {ℓ} :
    {A : Type ℓ} (P : ℕ → A → Type 0) (f : ℕ → A) (i : ℕ) (a : A)
    → P i a
    → ((j : ℕ) → j ≢ i → P j (f j))
    → (j : ℕ) → P j (update f i a j)
update_others P f i a here other j = elim (Bool-cases (j == i)) [
  | inl same ↦ rw same (subst (λ k. P k a) (sym ((==_iff j i).0 same)) here)
  | inr differ ↦ rw differ (other j (λ e. absurd (cc (differ, (==_iff j i).1 e))))
]
