-- ===== src/Prelude/Loops.antt =====
-- `for (i = 0; i < n; i++)`: rounds 0 to n - 1 in order, over the variables that the body changes.
use Prim.Native.Nat.{ℕ, zero, suc, ◌<◌}
use mathlib.Core.Path.{◌≡◌, refl}
use mathlib.Core.Bool.{Bool, true, ◌&&◌}
use mathlib.Core.Logic.{◌↔◌}
use native.Mathlib.Omega.{arith}

unfoldable pub loop {ℓ} : {S : Type ℓ} → ℕ → (ℕ → S → S) → S → S
loop zero body s = s
loop (suc n) body s = body n (loop n body s)

-- `for (...) if (!test(i)) return false; return true;`
unfoldable pub all_below : ℕ → (ℕ → Bool) → Bool
all_below zero test = true
all_below (suc n) test = all_below n test && test n

pub all_below_iff :
    (n : ℕ) (test : ℕ → Bool) → (all_below n test ≡ true) ↔ ((i : ℕ) → i < n → test i ≡ true)
unfolding all_below
all_below_iff n test = (holds n, shows n)
  where
    holds : (n : ℕ) → all_below n test ≡ true → (i : ℕ) → i < n → test i ≡ true
    holds zero h i lt = absurd (omega arith)
    holds (suc n) h i lt = ground (arith, holds n (ground arith) i)

    shows : (n : ℕ) → ((i : ℕ) → i < n → test i ≡ true) → all_below n test ≡ true
    shows zero h = refl
    shows (suc n) h = ground (arith, shows n (λ i lt. h i (omega arith)), h n (omega arith))
