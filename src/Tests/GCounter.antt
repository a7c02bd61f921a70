-- ===== src/Tests/GCounter.antt =====
-- Runs of the G-Counter functions, and the theorems about them at concrete counters.
use mathlib.Core.List.{Memᴰ}
use cauchy.Prelude.{
  update, ℕ, zero, suc, ◌%◌, ◌≤◌, ◌<◌, ◌≡◌, refl, true, some, List, [], ◌∷◌, replicate, arith,
  get_or-replicate, loop, all_below, ◌==◌, Bool-cases, inl, inr,
}
use cauchy.Cells.{u64_mod, at, sum_cells}
use cauchy.Cells.Bounds.{total}
use cauchy.Convergence.{SameStates}
use cauchy.GCounter.{GCounter, IsValid, init, increment, value, get, merge, equals}
use cauchy.GCounter.Merge.{counters}
use cauchy.GCounter.Network.{Net, bump, send, receive, Reach, start, next}
use cauchy.GCounter.Network.Agreement.{replicas_sound, agreed_value}

-- Two active nodes with the given counts.
abbrev pub counter : ℕ → ℕ → GCounter
counter x y = record { counts = x ∷ y ∷ replicate 62 0; num_nodes = 2 }

pub counter-IsValid : (x y : ℕ) → x < u64_mod → y < u64_mod → IsValid (counter x y)
counter-IsValid x y hx hy = record {
  width = refl;
  active = omega arith;
  fits = fits;
  clear = clear;
}
  where
    fits : (i : ℕ) → at (counter x y).counts i < u64_mod
    fits zero = hx
    fits (suc zero) = hy
    fits (suc (suc i)) = omega (arith, get_or-replicate {A = ℕ} 62 i 0)

    clear : (i : ℕ) → 2 ≤ i → at (counter x y).counts i ≡ 0
    clear zero h = absurd (omega arith)
    clear (suc zero) h = absurd (omega arith)
    clear (suc (suc i)) h = get_or-replicate {A = ℕ} 62 i 0

abbrev a : GCounter
a = counter 4 1

abbrev b : GCounter
b = counter 2 5

abbrev c : GCounter
c = counter 4 5

a-IsValid : IsValid a
a-IsValid = counter-IsValid 4 1 (omega arith) (omega arith)

b-IsValid : IsValid b
b-IsValid = counter-IsValid 2 5 (omega arith) (omega arith)

merge_run : merge (some a) (some b) ≡ some c
unfolding merge loop
merge_run = refl

value_run : value (some c) ≡ 9
unfolding value sum_cells loop
value_run = refl

same_messages : SameStates counters (a ∷ b ∷ []) (b ∷ a ∷ b ∷ [])
same_messages = (forth, back)
  where
    forth : (m : GCounter) → Memᴰ m (a ∷ b ∷ []) → Memᴰ m (b ∷ a ∷ b ∷ [])
    forth m t = Memᴰ.tail t

    back : (m : GCounter) → Memᴰ m (b ∷ a ∷ b ∷ []) → Memᴰ m (a ∷ b ∷ [])
    back m (Memᴰ.head e) = Memᴰ.tail (Memᴰ.head e)
    back m (Memᴰ.tail t) = t

total_run : total 2 (get (some c)) ≡ 9
unfolding get total
total_run = refl

total_fits : total 2 (get (some c)) < u64_mod
total_fits = omega (arith, total_run)

abbrev buffer : List ℕ
buffer = replicate 24 7

-- Two nodes: node 0 counts once and sends its counter, and node 1 merges it.
abbrev net0 : Net
net0 = record { replicas = λ _. counter 0 0; flight = []; done = λ _. 0 }

abbrev net1 : Net
net1 = record net0 { replicas = update net0.replicas 0 (counter 1 0); done = update net0.done 0 1 }

abbrev net2 : Net
net2 = record net1 { flight = counter 1 0 ∷ [] }

abbrev net3 : Net
net3 = record net2 { replicas = update net2.replicas 1 (counter 1 0) }

init_run : init (some a) 2 ≡ some (counter 0 0)
unfolding init
init_run = refl

bump_run : increment (some (counter 0 0)) 0 ≡ some (counter 1 0)
unfolding increment
bump_run = refl

receive_run : merge (some (counter 0 0)) (some (counter 1 0)) ≡ some (counter 1 0)
unfolding merge loop
receive_run = refl

reach : Reach 2 net3
reach =
    next
      (next (next (start a (counter 0 0) init_run) (bump 0 (counter 1 0) (omega arith) bump_run))
        (send 0 (omega arith)))
      (receive 1 (counter 1 0) (counter 1 0) (omega arith) (Memᴰ.head refl) receive_run)

done_fits : (i : ℕ) → net3.done i < u64_mod
done_fits i = elim (Bool-cases (i == 0)) [
  | inl own ↦ rw own (omega arith)
  | inr other ↦ rw other (omega arith)
]

replicas_sound_example :
    IsValid (net3.replicas 1)
    × ((j : ℕ) → get (some (net3.replicas 1)) j ≤ net3.done j)
    × (get (some (net3.replicas 1)) 1 ≡ net3.done 1)
replicas_sound_example = replicas_sound (omega arith) reach done_fits 1 (omega arith)

agreed : (i j : ℕ) → i < 2 → j < 2 → equals (some (net3.replicas i)) (some (net3.replicas j)) ≡ true
unfolding equals all_below
agreed zero zero hi hj = refl
agreed zero (suc zero) hi hj = refl
agreed (suc zero) zero hi hj = refl
agreed (suc zero) (suc zero) hi hj = refl
agreed (suc (suc i)) j hi hj = absurd (omega arith)
agreed zero (suc (suc j)) hi hj = absurd (omega arith)
agreed (suc zero) (suc (suc j)) hi hj = absurd (omega arith)

agreed_value_example : value (some (net3.replicas 1)) ≡ total 2 net3.done % u64_mod
agreed_value_example = agreed_value (omega arith) reach done_fits agreed 1 (omega arith)
