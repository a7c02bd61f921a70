-- ===== src/Pool/Races.antt =====
-- What the pool does when the steps of two calls interleave, and what its counters say.
use cauchy.Prelude.{
  ℕ, suc, ◌+◌, ◌-◌, ◌%◌, ◌<◌, ◌≡◌, ◌≢◌, refl, sym, ap, ◌∙◌, true, some, arith, ==_refl,
}
use cauchy.Cells.{u64_mod}
use cauchy.Pool.{Memory, write, Pool, alloc, free, swap_head, get_stats}
use cauchy.Pool.Blocks.{taken, put, alloc-taken, free-put}

-- One thread in `alloc` has loaded the head of the free list, `a`, and its successor, `b`. Before its
-- compare-and-swap another thread allocates `a` and `b` and gives `a` back. The compare-and-swap then
-- succeeds all the same, and makes `b` the head of the free list, although the other thread holds it:
-- the next allocation returns `b` a second time.
pub pool_aba :
    (fuel new_block : ℕ) (memory : Memory) (pool : Pool) (a b : ℕ)
    → a ≢ 0
    → b ≢ 0
    → a ≢ b
    → pool.free_list ≡ a
    → memory a ≡ b
    → (p1 : Pool) × (p2 : Pool) × (p3 : Pool) × (p4 : Pool) × (p5 : Pool) × (memory' : Memory)
      × (alloc (suc fuel) new_block memory pool ≡ some (a, p1))
      × (alloc (suc fuel) new_block memory p1 ≡ some (b, p2))
      × (free (suc fuel) memory p2 a ≡ some (memory', p3))
      × (swap_head p3 a b ≡ (true, p4))
      × (alloc (suc fuel) new_block memory' p4 ≡ some (b, p5))
pool_aba fuel new_block memory pool a b a_there b_there apart head second =
    let p1 = taken memory pool in
    let p2 = taken memory p1 in
    let p3 = put p2 a in
    let p4 = record p3 { free_list = b } in
    let memory' = write memory a p2.free_list in
    let head1 : p1.free_list ≡ b = ap memory head ∙ second in
    (
      p1,
      p2,
      p3,
      p4,
      taken memory' p4,
      memory',
      alloc-taken fuel new_block memory pool (λ e. a_there (sym head ∙ e))
          ∙ ap (λ x. some (x, p1)) head,
      alloc-taken fuel new_block memory p1 (λ e. b_there (sym head1 ∙ e))
          ∙ ap (λ x. some (x, p2)) head1,
      free-put fuel memory p2 a a_there,
      rw (==_refl a) refl,
      alloc-taken fuel new_block memory' p4 b_there,
    )

one_less :
    (allocated freed : ℕ)
    → freed < u64_mod
    → ((allocated + u64_mod - (freed + 1) % u64_mod) % u64_mod + 1) % u64_mod
      ≡ (allocated + u64_mod - freed) % u64_mod
one_less allocated freed small = omega arith

-- A block that is taken from the free list and given back changes nothing about the blocks that are
-- in use, but the statistics then report one block in use less than before, modulo 2 ^ 64.
pub pool_in_use_drifts :
    (fuel new_block : ℕ) (memory : Memory) (pool : Pool)
    → pool.free_list ≢ 0
    → pool.freed < u64_mod
    → (taken_pool : Pool) × (memory' : Memory) × (pool' : Pool) × (alloc
          (suc fuel)
          new_block
          memory
          pool
        ≡ some (pool.free_list, taken_pool))
      × (free (suc fuel) memory taken_pool pool.free_list ≡ some (memory', pool'))
      × (pool'.free_list ≡ pool.free_list)
      × (((get_stats (some pool')).in_use + 1) % u64_mod ≡ (get_stats (some pool)).in_use)
unfolding get_stats
pool_in_use_drifts fuel new_block memory pool some_free small =
    let p1 = taken memory pool in
    let drift = one_less pool.allocated pool.freed small in
    (
      p1,
      write memory pool.free_list p1.free_list,
      put p1 pool.free_list,
      alloc-taken fuel new_block memory pool some_free,
      free-put fuel memory p1 pool.free_list some_free,
      refl,
      drift,
    )
