-- ===== src/Pool/Blocks.antt =====
-- The free list as a list of blocks, and what each call does to it.
use mathlib.Core.Option
use cauchy.Prelude.{
  ℕ, suc, ◌+◌, ◌<◌, ◌≡◌, ◌≢◌, refl, true, false, some, List, [], ◌∷◌, ◌==◌, ltb, if◌then◌else◌,
  arith, Bool-cases, inl, inr, ==_refl, ==_iff,
}
use cauchy.Atomic.{fetch_add_u64}
use cauchy.Pool.{Memory, write, Pool, in_use_of, alloc, free}

-- The blocks of a free list, from its head on.
abbrev pub IsChain : Memory → ℕ → List ℕ → Type 0
IsChain memory head [] = head ≡ 0
IsChain memory head (x ∷ xs) = (head ≡ x) × (x ≢ 0) × IsChain memory (memory x) xs

abbrev pub copies : ℕ → List ℕ → ℕ
copies x [] = 0
copies x (y ∷ ys) = (if y == x then 1 else 0) + copies x ys

-- Without its first `x`.
abbrev pub without : ℕ → List ℕ → List ℕ
without x [] = []
without x (y ∷ ys) = let rest = without x ys in if y == x then ys else y ∷ rest

pub copies-without :
    (x y : ℕ) (xs : List ℕ)
    → 0 < copies x xs
    → copies y (without x xs) + (if x == y then 1 else 0) ≡ copies y xs
copies-without x y [] some_there = absurd (omega arith)
copies-without x y (z ∷ xs) some_there = elim (Bool-cases (z == x)) [
  | inl here ↦ let e = (==_iff z x).0 here in rw (here, e) (omega arith)
  | inr there ↦ let rest = copies-without x y xs (ground arith) in rw there (omega (arith, rest))
]

-- A write to a block outside the free list leaves it.
pub IsChain-write :
    (memory : Memory) (block word head : ℕ) (xs : List ℕ)
    → copies block xs ≡ 0
    → IsChain memory head xs
    → IsChain (write memory block word) head xs
IsChain-write memory block word head [] out chain = chain
IsChain-write memory block word head (x ∷ xs) out chain =
    let miss : (x == block) ≡ false = ground arith in
    let none_left : copies block xs ≡ 0 = omega arith in
    (chain.0, chain.1, rw miss (IsChain-write memory block word (memory x) xs none_left chain.2))

-- The pool after a block was taken from the free list.
abbrev pub taken : Memory → Pool → Pool
taken memory pool = record pool {
  free_list = memory pool.free_list;
  total_allocs = fetch_add_u64 pool.total_allocs 1;
  peak_use = if ltb pool.peak_use (in_use_of pool) then in_use_of pool else pool.peak_use;
}

-- The pool after the allocator was asked.
abbrev pub grown : ℕ → Pool → Pool
grown new_block pool = record pool {
  total_allocs = fetch_add_u64 pool.total_allocs 1;
  allocated = if new_block == 0 then pool.allocated else fetch_add_u64 pool.allocated 1;
}

-- The pool after a block came back.
abbrev pub put : Pool → ℕ → Pool
put pool block = record pool { free_list = block; freed = fetch_add_u64 pool.freed 1 }

pub alloc-taken :
    (fuel new_block : ℕ) (memory : Memory) (pool : Pool)
    → pool.free_list ≢ 0
    → alloc (suc fuel) new_block memory pool ≡ some (pool.free_list, taken memory pool)
unfolding alloc Option.bind
alloc-taken fuel new_block memory pool some_free =
    let used : (pool.free_list == 0) ≡ false = ground arith in
    elim (Bool-cases (ltb pool.peak_use (in_use_of pool))) [
      | inl higher ↦ rw (used, ==_refl pool.free_list, used, higher, ==_refl pool.peak_use) refl
      | inr lower ↦ rw (used, ==_refl pool.free_list, used, lower) refl
    ]

pub alloc-grown :
    (fuel new_block : ℕ) (memory : Memory) (pool : Pool)
    → pool.free_list ≡ 0
    → alloc (suc fuel) new_block memory pool ≡ some (new_block, grown new_block pool)
unfolding alloc Option.bind
alloc-grown fuel new_block memory pool empty =
    let used : (pool.free_list == 0) ≡ true = ground arith in
    elim (Bool-cases (new_block == 0)) [
      | inl failed ↦ rw (used, failed) refl
      | inr new ↦ rw (used, new) refl
    ]

pub free-put :
    (fuel : ℕ) (memory : Memory) (pool : Pool) (block : ℕ)
    → block ≢ 0
    → free (suc fuel) memory pool block ≡ some (write memory block pool.free_list, put pool block)
unfolding free
free-put fuel memory pool block there =
    let used : (block == 0) ≡ false = ground arith in rw (used, ==_refl pool.free_list) refl
