-- ===== src/Tests/Pool.antt =====
-- Runs of the pool, and the theorems about it at concrete states.
use mathlib.Core.Option
use cauchy.Prelude.{ℕ, ◌+◌, ◌*◌, ◌^◌, ◌≤◌, ◌<◌, ◌≡◌, refl, true, false, none, some, [], ◌∷◌, arith}
use cauchy.Cells.{u64_mod}
use cauchy.Pool.{
  Memory, write, Config, Pool, actual_block_size, alignment_of, create, alloc, free, swap_head,
}
use cauchy.Pool.Blocks.{copies}
use cauchy.Pool.States.{State, IsSound, Reach, start, next, take}
use cauchy.Pool.Exclusive.{pool_exclusive}
use cauchy.Pool.Create.{region, pool_create}
use cauchy.Pool.Aligned.{Allocators, aligned_alloc, aligned_free, portable, request, aligned_block}
use cauchy.Pool.Races.{pool_aba}

-- Two blocks of 60 bytes, which become 64.
abbrev config : Config
config = record { block_size = 60; initial_blocks = 2; max_blocks = 0; alignment = 0 }

size_run : actual_block_size 60 64 ≡ 64
unfolding actual_block_size
size_run = refl

abbrev empty : Memory
empty address = 0

-- The pool with these blocks at address 1024.
abbrev memory : Memory
memory = write (write empty 1024 0) 1088 1024

abbrev pool : Pool
pool = record {
  free_list = 1088;
  allocated = 2;
  freed = 0;
  peak_use = 0;
  total_allocs = 0;
  contention = 0;
  block_size = 64;
  alignment = 64;
  max_blocks = 0;
  base_memory = 1024;
  base_size = 128;
}

create_run : create true 1024 empty (some config) ≡ some (memory, pool)
unfolding create actual_block_size
create_run = refl

room : 1024 + actual_block_size 60 (alignment_of config) * 2 < u64_mod
unfolding actual_block_size
room = omega arith

pool_create_example :
    (0 < 1024
      → (memory' : Memory) × (pool' : Pool) × (create true 1024 empty (some config)
          ≡ some (memory', pool'))
        × (pool'.allocated ≡ 2)
        × ((x : ℕ)
            → 0 < copies x (region 2 (actual_block_size 60 (alignment_of config)) 1024 [])
            → (1024 ≤ x)
              × (x + actual_block_size 60 (alignment_of config) ≤ 1024 + pool'.base_size))
        × IsSound (record {
          memory = memory';
          pool = pool';
          lent = [];
          blocks = region 2 (actual_block_size 60 (alignment_of config)) 1024 [];
        }))
    × (create true 0 empty (some config) ≡ none)
    × (create false 1024 empty (some config) ≡ none)
pool_create_example = pool_create 1024 empty config (omega arith) room

abbrev fresh : State
fresh = record { memory = memory; pool = pool; lent = []; blocks = 1088 ∷ 1024 ∷ [] }

fresh-IsSound : IsSound fresh
fresh-IsSound = record {
  idle = 1088 ∷ 1024 ∷ [];
  chain = (refl, λ e. absurd (omega (arith, e)), (refl, λ e. absurd (omega (arith, e)), refl));
  each = λ x. omega arith;
  once = once;
  null = refl;
}
  where
    once : (x : ℕ) → copies x (1088 ∷ 1024 ∷ []) ≤ 1
    once x = ground arith

-- After one allocation.
abbrev used : Pool
used = record pool { free_list = 1024; total_allocs = 1; peak_use = 2 }

abbrev one_lent : State
one_lent = record fresh { pool = used; lent = 1088 ∷ [] }

alloc_run : alloc 1 0 memory pool ≡ some (1088, used)
unfolding alloc Option.bind
alloc_run = refl

taken_once : Reach fresh one_lent
taken_once = next start (take 0 0 1088 used refl alloc_run)

-- What the allocator answers.
abbrev beyond : ℕ
beyond = 5000

pool_exclusive_example :
    IsSound one_lent
    × ((block : ℕ) × (pool' : Pool) × (alloc 1 beyond memory used ≡ some (block, pool'))
        × (copies block (1088 ∷ []) ≡ 0)
        × (block ≡ 0 → beyond ≡ 0))
pool_exclusive_example = pool_exclusive fresh one_lent 0 beyond fresh-IsSound taken_once refl

one_lent-IsSound : IsSound one_lent
one_lent-IsSound = pool_exclusive_example.0

pool_aba_example :
    (p1 : Pool) × (p2 : Pool) × (p3 : Pool) × (p4 : Pool) × (p5 : Pool) × (memory' : Memory)
    × (alloc 1 0 memory pool ≡ some (1088, p1))
    × (alloc 1 0 memory p1 ≡ some (1024, p2))
    × (free 1 memory p2 1088 ≡ some (memory', p3))
    × (swap_head p3 1088 1024 ≡ (true, p4))
    × (alloc 1 0 memory' p4 ≡ some (1024, p5))
pool_aba_example =
    pool_aba 0 0 memory pool 1088 1024 (λ e. absurd (omega (arith, e)))
      (λ e. absurd (omega (arith, e))) (λ e. absurd (omega (arith, e))) refl refl

-- Blocks at the address 1000, whatever is asked for.
abbrev library : Allocators
library = record {
  aligned_malloc = λ size alignment. 0;
  posix_memalign = λ alignment size. none;
  malloc = λ size. 1000;
}

aligned_block_example :
    (m : Memory) × (a : ℕ) × (factor : ℕ) × (aligned_alloc portable library memory 100 (2 ^ 6)
      ≡ (m, a))
    × (a ≡ 2 ^ 6 * factor)
    × (1008 ≤ a)
    × (a + 100 ≤ 1000 + request 100 (2 ^ 6))
    × ((used : Memory)
        → ((x : ℕ) → x < a → used x ≡ m x)
        → aligned_free portable used a ≡ some 1000)
aligned_block_example = aligned_block library 100 6 memory (omega arith) (omega arith)
