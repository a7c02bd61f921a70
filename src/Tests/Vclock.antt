-- ===== src/Tests/Vclock.antt =====
-- Runs of the clock functions, and the theorems about clocks at concrete clocks.
use mathlib.Core.List.{Memᴰ}
use cauchy.Prelude.{
  ℕ, zero, suc, ◌≤◌, ◌<◌, ◌≡◌, refl, none, some, List, [], ◌∷◌, ◌↔◌, replicate, length, drop, arith,
  get_or-replicate, loop,
}
use cauchy.Types.{concurrent, ok}
use cauchy.Cells.{u64_mod, at, causality, sum_cells}
use cauchy.Cells.Order.{Means}
use cauchy.Bytes.LittleEndian.{little_endian}
use cauchy.Convergence.{SameStates, deliver}
use cauchy.Vclock
use cauchy.Vclock.{
  Vclock, IsValid, init, create, copy, clone, increment, get, set, merge, compare, equals, is_empty,
  sum,
}
use cauchy.Vclock.Merge.{clocks, merge_converges}
use cauchy.Vclock.Compare.{compare_iff}
use cauchy.Vclock.Updates.{IsValidPtr, updates-IsValid}
use cauchy.Vclock.Wire.{serialized_size, serialize, deserialize, deserialize-serialize}

-- Three active nodes with the given counts.
abbrev pub clock : ℕ → ℕ → ℕ → Vclock
clock x y z = record { entries = x ∷ y ∷ z ∷ replicate 61 0; num_nodes = 3 }

pub clock-IsValid : (x y z : ℕ) → x < u64_mod → y < u64_mod → z < u64_mod → IsValid (clock x y z)
clock-IsValid x y z hx hy hz = record {
  width = refl;
  active = omega arith;
  fits = fits;
  clear = clear;
}
  where
    fits : (i : ℕ) → at (clock x y z).entries i < u64_mod
    fits zero = hx
    fits (suc zero) = hy
    fits (suc (suc zero)) = hz
    fits (suc (suc (suc i))) = omega (arith, get_or-replicate {A = ℕ} 61 i 0)

    clear : (i : ℕ) → 3 ≤ i → at (clock x y z).entries i ≡ 0
    clear zero h = absurd (omega arith)
    clear (suc zero) h = absurd (omega arith)
    clear (suc (suc zero)) h = absurd (omega arith)
    clear (suc (suc (suc i))) h = get_or-replicate {A = ℕ} 61 i 0

abbrev a : Vclock
a = clock 2 0 1

abbrev b : Vclock
b = clock 1 3 1

a-IsValid : IsValid a
a-IsValid = clock-IsValid 2 0 1 (omega arith) (omega arith) (omega arith)

b-IsValid : IsValid b
b-IsValid = clock-IsValid 1 3 1 (omega arith) (omega arith) (omega arith)

merge_run : merge (some a) (some b) ≡ some (clock 2 3 1)
unfolding merge loop
merge_run = refl

compare_run : compare (some a) (some b) ≡ concurrent
unfolding compare causality loop
compare_run = refl

compare-null : compare none (some b) ≡ concurrent
unfolding compare
compare-null = refl

sum_run : sum (some b) ≡ 5
unfolding sum sum_cells loop
sum_run = refl

same_messages : SameStates clocks (a ∷ b ∷ []) (b ∷ a ∷ b ∷ [])
same_messages = (forth, back)
  where
    forth : (m : Vclock) → Memᴰ m (a ∷ b ∷ []) → Memᴰ m (b ∷ a ∷ b ∷ [])
    forth m t = Memᴰ.tail t

    back : (m : Vclock) → Memᴰ m (b ∷ a ∷ b ∷ []) → Memᴰ m (a ∷ b ∷ [])
    back m (Memᴰ.head e) = Memᴰ.tail (Memᴰ.head e)
    back m (Memᴰ.tail t) = t

merge_converges_example :
    (c : Vclock) × (deliver clocks a (a ∷ b ∷ []) ≡ some c)
    × (deliver clocks a (b ∷ a ∷ b ∷ []) ≡ some c)
merge_converges_example =
    merge_converges a (a ∷ b ∷ []) (b ∷ a ∷ b ∷ []) a-IsValid (a-IsValid, (b-IsValid, tt))
      (b-IsValid, (a-IsValid, (b-IsValid, tt))) same_messages

compare_iff_example :
    (compare (some a) (some b) ≡ concurrent) ↔ Means concurrent (get (some a)) (get (some b))
compare_iff_example = compare_iff a b concurrent

abbrev buffer : List ℕ
buffer = replicate 32 7

updates-IsValid_example :
    IsValidPtr (init (some a) 70)
    × IsValidPtr (create (some a) 70)
    × (IsValidPtr (some b) → IsValidPtr (clone (some a) (some b)))
    × (IsValidPtr (some a)
        → IsValidPtr (some b)
        → IsValidPtr (copy (some a) (some b))
          × IsValidPtr (increment (some a) 70)
          × IsValidPtr (set (some a) 70 9)
          × IsValidPtr (merge (some a) (some b))
          × IsValidPtr (Vclock.min (some a) (some b))
          × IsValidPtr (deserialize little_endian (some a) (some buffer) 32).1)
updates-IsValid_example =
    updates-IsValid little_endian (some a) (some b) (some buffer) 70 32 9 (omega arith)

deserialize-serialize_example :
    (30 < serialized_size (some a)
      → serialize little_endian (some a) (some buffer) 30 ≡ (0, some buffer))
    × (serialized_size (some a) ≤ 30
        → (out : List ℕ) × (serialize little_endian (some a) (some buffer) 30
            ≡ (serialized_size (some a), some out))
          × (length out ≡ length buffer)
          × (drop (serialized_size (some a)) out ≡ drop (serialized_size (some a)) buffer)
          × ((old : Vclock) (size : ℕ)
              → serialized_size (some a) ≤ size
              → deserialize little_endian (some old) (some out) size ≡ (ok, some a)))
deserialize-serialize_example =
    deserialize-serialize little_endian a buffer 30 a-IsValid (omega arith)
