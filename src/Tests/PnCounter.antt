-- ===== src/Tests/PnCounter.antt =====
-- Runs of the PN-Counter functions, and the theorems about them at concrete counters.
use mathlib.Core.List.{Memᴰ}
use cauchy.Prelude.{ℕ, ◌≡◌, refl, some, List, [], ◌∷◌, replicate, arith, loop}
use cauchy.Prelude.Int.{pos, negsuc, ◌+ℤ◌, ◌-ℤ◌}
use cauchy.Cells.{sum_cells}
use cauchy.Convergence.{SameStates}
use cauchy.GCounter
use cauchy.GCounter.{GCounter}
use cauchy.PnCounter.{PnCounter, IsValid, increment, decrement, add, value, positive, negative}
use cauchy.PnCounter.Merge.{pn_counters}
use cauchy.PnCounter.Value.{pn_value-add}
use cauchy.Tests.GCounter.{counter, counter-IsValid}

abbrev a : PnCounter
a = record { positive = counter 4 1; negative = counter 0 2 }

abbrev b : PnCounter
b = record { positive = counter 2 5; negative = counter 1 2 }

a-IsValid : IsValid a
a-IsValid = record {
  positive = counter-IsValid 4 1 (omega arith) (omega arith);
  negative = counter-IsValid 0 2 (omega arith) (omega arith);
}

b-IsValid : IsValid b
b-IsValid = record {
  positive = counter-IsValid 2 5 (omega arith) (omega arith);
  negative = counter-IsValid 1 2 (omega arith) (omega arith);
}

positive_run : positive (some a) ≡ 5
unfolding positive GCounter.value sum_cells loop
positive_run = refl

negative_run : negative (some a) ≡ 2
unfolding negative GCounter.value sum_cells loop
negative_run = refl

value_run : value (some a) ≡ pos 3
unfolding value GCounter.value sum_cells loop ◌-ℤ◌
value_run = refl

same_messages : SameStates pn_counters (a ∷ b ∷ []) (b ∷ a ∷ b ∷ [])
same_messages = (forth, back)
  where
    forth : (m : PnCounter) → Memᴰ m (a ∷ b ∷ []) → Memᴰ m (b ∷ a ∷ b ∷ [])
    forth m t = Memᴰ.tail t

    back : (m : PnCounter) → Memᴰ m (b ∷ a ∷ b ∷ []) → Memᴰ m (a ∷ b ∷ [])
    back m (Memᴰ.head e) = Memᴰ.tail (Memᴰ.head e)
    back m (Memᴰ.tail t) = t

pn_value-add_example :
    (value (add (some a) 1 (negsuc 6)) ≡ value (some a) +ℤ negsuc 6)
    × (increment (some a) 1 ≡ add (some a) 1 (pos 1))
    × (decrement (some a) 1 ≡ add (some a) 1 (negsuc 0))
pn_value-add_example =
    pn_value-add a 1 (negsuc 6) a-IsValid (omega arith) (omega arith) (omega (arith, positive_run))
      (omega (arith, negative_run))

abbrev buffer : List ℕ
buffer = replicate 48 7
