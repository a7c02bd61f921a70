-- ===== src/Tests/Atomic.antt =====
-- Runs of the 128-bit accesses, and the theorem about them at concrete words.
use cauchy.Prelude.{ℕ, ◌≡◌, refl, false, [], ◌∷◌}
use cauchy.Atomic.Wide.{U128, cas_arm64}

abbrev word : ℕ → U128
word n = record { lo = n; hi = 7 }

-- The first store fails, and then another word is there.
lost_run :
    cas_arm64 (word 1) (word 2 ∷ []) (word 1) (word 5)
    ≡ record { won = false; word = word 2; expected = word 2 }
unfolding cas_arm64
lost_run = refl
