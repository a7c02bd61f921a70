-- ===== src/Pool/States.antt =====
-- A pool and its clients, call after call. Clients write to the blocks that they hold, and give each
-- back once.
use cauchy.Prelude.{
  ℕ, suc, ◌+◌, ◌≤◌, ◌<◌, ◌≡◌, refl, ap, false, some, List, ◌∷◌, ◌==◌, if◌then◌else◌, arith,
  Bool-cases, inl, inr, ==_iff,
}
use cauchy.Pool.{Memory, write, Pool, alloc, free}
use cauchy.Pool.Blocks.{IsChain, copies, without}

-- The memory, the pool, the blocks that clients hold, and all blocks that the pool ever had.
pub record State : Type 0 where
  pub memory : Memory
  pub pool : Pool
  pub lent : List ℕ
  pub blocks : List ℕ

-- Clients hold a block that a call returned, unless it is NULL.
abbrev pub lend : ℕ → List ℕ → List ℕ
lend block lent = if block == 0 then lent else block ∷ lent

-- A block that the pool did not have is the allocator's.
abbrev pub known : ℕ → List ℕ → List ℕ
known block blocks =
    if block == 0 then blocks else if copies block blocks == 0 then block ∷ blocks else blocks

-- The allocator answers with NULL or with memory that is not in use.
pub data Step (s : State) : State → Type 0 where
  take :
      (fuel new_block block : ℕ) (pool : Pool)
      → copies new_block s.blocks ≡ 0
      → alloc (suc fuel) new_block s.memory s.pool ≡ some (block, pool)
      → Step s (record s { pool = pool; lent = lend block s.lent; blocks = known block s.blocks })
  give :
      (fuel block : ℕ) (memory : Memory) (pool : Pool)
      → 0 < copies block s.lent
      → free (suc fuel) s.memory s.pool block ≡ some (memory, pool)
      → Step s (record s { memory = memory; pool = pool; lent = without block s.lent })
  fill :
      (block word : ℕ)
      → 0 < copies block s.lent
      → Step s (record s { memory = write s.memory block word })

pub data Reach (s : State) : State → Type 0 where
  start : Reach s s
  next : {t u : State} → Reach s t → Step t u → Reach s u

-- The free list ends, every block is free or lent, and no block is so twice.
pub record IsSound (s : State) : Type 0 where
  pub idle : List ℕ
  pub chain : IsChain s.memory s.pool.free_list idle
  pub each : (x : ℕ) → copies x idle + copies x s.lent ≡ copies x s.blocks
  pub once : (x : ℕ) → copies x s.blocks ≤ 1
  pub null : copies 0 s.blocks ≡ 0

-- One copy of a block that is not NULL.
abbrev pub one_of : ℕ → ℕ → ℕ
one_of block x = if block == 0 then 0 else if block == x then 1 else 0

pub copies-lend :
    (block x : ℕ) (lent : List ℕ) → copies x (lend block lent) ≡ one_of block x + copies x lent
copies-lend block x lent = elim (Bool-cases (block == 0)) [
  | inl nothing ↦ rw nothing (omega arith)
  | inr there ↦ rw there refl
]

pub copies-known_new :
    (block x : ℕ) (blocks : List ℕ)
    → copies block blocks ≡ 0
    → copies x (known block blocks) ≡ one_of block x + copies x blocks
copies-known_new block x blocks new = elim (Bool-cases (block == 0)) [
  | inl nothing ↦ rw nothing (omega arith)
  | inr there ↦ rw (there, new) refl
]

pub copies-known_old :
    (block x : ℕ) (blocks : List ℕ)
    → 0 < copies block blocks
    → copies x (known block blocks) ≡ copies x blocks
copies-known_old block x blocks old =
    let known_one : (copies block blocks == 0) ≡ false = ground arith in
    elim (Bool-cases (block == 0)) [
      | inl nothing ↦ rw nothing refl
      | inr there ↦ rw (there, known_one) refl
    ]

pub known_once :
    (block x : ℕ) (blocks : List ℕ)
    → ((y : ℕ) → copies y blocks ≤ 1)
    → copies x (known block blocks) ≤ 1
known_once block x blocks once = elim (Bool-cases (copies block blocks == 0)) [
  | inl new ↦
      let none_there = (==_iff (copies block blocks) 0).0 new in
      let sum = copies-known_new block x blocks none_there in
      elim (Bool-cases (block == x)) [
        | inl here ↦
            let e = ap (λ y. copies y blocks) ((==_iff block x).0 here) in
            ground (arith, sum, e, none_there)
        | inr there ↦ ground (arith, sum, once x)
      ]
  | inr old ↦ omega (arith, copies-known_old block x blocks (ground arith), once x)
]

pub known_null :
    (block : ℕ) (blocks : List ℕ) → copies 0 blocks ≡ 0 → copies 0 (known block blocks) ≡ 0
known_null block blocks null = elim (Bool-cases (copies block blocks == 0)) [
  | inl new ↦
      ground (arith, copies-known_new block 0 blocks ((==_iff (copies block blocks) 0).0 new))
  | inr old ↦ omega (arith, copies-known_old block 0 blocks (ground arith))
]
