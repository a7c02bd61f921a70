-- ===== src/Atomic/Wide.antt =====
-- src/core/atomic.c: 128-bit accesses, which each platform has its own assembly for. On x86-64 a
-- compare-and-swap is one instruction. On ARM64 it is a loop around a pair of exclusive accesses: the
-- store fails when somebody else wrote in between, or for no reason, and then the loop starts again.
use cauchy.Prelude.{
  ℕ, ◌≡◌, refl, Bool, true, false, ◌&&◌, Option, none, some, List, [], ◌∷◌, ◌++◌, ==_refl, ◌==◌,
  if◌then◌else◌, Bool-cases, inl, inr,
}

-- `cauchy_u128_t`
pub record U128 : Type 0 where
  pub lo : ℕ
  pub hi : ℕ

abbrev pub same_u128 : U128 → U128 → Bool
same_u128 a b = a.lo == b.lo && a.hi == b.hi

-- The answer of a compare-and-swap, what is left in memory and what is left in `*expected`.
pub record Swap128 : Type 0 where
  pub won : Bool
  pub word : U128
  pub expected : U128

-- `cauchy_atomic_cas_u128` on x86-64: `cmpxchg16b`
abbrev pub cas_x86_64 : U128 → U128 → U128 → Swap128
cas_x86_64 word expected desired =
    if same_u128 word expected
    then record { won = true; word = desired; expected = expected }
    else record { won = false; word = word; expected = word }

-- `cauchy_atomic_cas_u128` on ARM64. `later` has an entry for each store that fails: what the memory
-- holds when the next round reads it.
unfoldable pub cas_arm64 : U128 → List U128 → U128 → U128 → Swap128
cas_arm64 word [] expected desired =
    if same_u128 word expected
    then record { won = true; word = desired; expected = expected }
    else record { won = false; word = word; expected = word }
cas_arm64 word (now ∷ later) expected desired =
    let rest = cas_arm64 now later expected desired in
    if same_u128 word expected then rest else record { won = false; word = word; expected = word }

-- `cauchy_atomic_load_u128` on ARM64
abbrev pub load_u128 : U128 → U128
load_u128 word = word

-- The loop of `cauchy_atomic_store_u128`: `words` is what the memory holds at each of its
-- compare-and-swaps. It leaves the new word, and the words of the rounds that it did not need.
abbrev pub store_loop : List U128 → U128 → U128 → Option (U128 × List U128)
store_loop [] expected val = none
store_loop (word ∷ words) expected val =
    let swap = cas_x86_64 word expected val in
    let rest = store_loop words swap.expected val in
    if swap.won then some (swap.word, words) else rest

-- `cauchy_atomic_store_u128`, which loads `first`.
unfoldable pub store_u128 : U128 → List U128 → U128 → Option (U128 × List U128)
store_u128 first words val = store_loop words (load_u128 first) val

-- Each of the words is the expected one.
abbrev pub AllSame : U128 → List U128 → Type 0
AllSame expected [] = Unit
AllSame expected (word ∷ words) = (same_u128 word expected ≡ true) × AllSame expected words

same_u128_refl : (w : U128) → same_u128 w w ≡ true
same_u128_refl w = rw (==_refl w.lo, ==_refl w.hi) refl

store_loop_ends :
    (expected : U128) (before : List U128) (w : U128) (after : List U128) (val : U128)
    → (rest : List U128) × (store_loop (before ++ (w ∷ w ∷ after)) expected val ≡ some (val, rest))
store_loop_ends expected [] w after val = elim (Bool-cases (same_u128 w expected)) [
  | inl same ↦ (w ∷ after, rw same refl)
  | inr differ ↦ (after, rw (differ, same_u128_refl w) refl)
]
store_loop_ends expected (word ∷ before) w after val = elim (Bool-cases (same_u128 word expected)) [
  | inl same ↦ (before ++ (w ∷ w ∷ after), rw same refl)
  | inr differ ↦ let (rest, run) = store_loop_ends word before w after val in (rest, rw differ run)
]

-- A 128-bit store ends with its word in memory as soon as two attempts in a row find the same word
-- there, so when nobody else writes between them, whatever was found before.
pub store_u128_ends :
    (first : U128) (before : List U128) (w : U128) (after : List U128) (val : U128)
    → (rest : List U128) × (store_u128 first (before ++ (w ∷ w ∷ after)) val ≡ some (val, rest))
unfolding store_u128
store_u128_ends first before w after val = store_loop_ends first before w after val
