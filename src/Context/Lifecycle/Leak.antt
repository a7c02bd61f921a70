-- ===== src/Context/Lifecycle/Leak.antt =====
-- What the destruction of a pool leaves: src/core/memory.c.
use cauchy.Prelude.{ℕ, ◌+◌, ◌≡◌, ◌≢◌, ap, ◌∙◌, some, List, ◌∷◌, ◌==◌, arith, ==_refl, false}
use cauchy.Pool.{Memory, write, Pool, alloc, free}
use cauchy.Pool.Blocks.{copies, grown, put, alloc-grown, free-put}
use cauchy.Context.Lifecycle.{Heap, alloc_block, PlacedPool, destroy_pool}
use cauchy.Context.Lifecycle.Blocks.{destroy_pool-Frees}

-- A block that a pool got from the allocator, because its free list was empty, is never freed: it is
-- given back to the pool, and when the pool is destroyed it is one of the blocks that were obtained
-- and not freed.
pub pool_leaks :
    (heap : Heap) (p : PlacedPool) (a : ℕ) (rest : List ℕ)
    → heap.answers ≡ (a ∷ rest)
    → a ≢ 0
    → p.pool.free_list ≡ 0
    → a ≢ p.address
    → a ≢ p.pool.base_memory
    → (lent back : Pool) × (memory : Memory) × (alloc 1 (alloc_block heap).0 heap.memory p.pool
        ≡ some (a, lent))
      × (free 1 heap.memory lent a ≡ some (memory, back))
      × (let heap' = destroy_pool (some (record p { pool = back })) (alloc_block heap).1 in
          (copies a heap'.obtained ≡ copies a heap.obtained + 1)
          × (copies a heap'.freed ≡ copies a heap.freed))
pool_leaks heap p a rest answers real empty not_pool not_base =
    let heap1 = (alloc_block heap).1 in
    let lent = grown a p.pool in
    let back = put lent a in
    let null : (a == 0) ≡ false = ground arith in
    let (same, freed) =
      destroy_pool-Frees (some (record p { pool = back })) heap1 a (ground arith) in
    (
      lent,
      back,
      write heap.memory a lent.free_list,
      rw answers (alloc-grown 0 a heap.memory p.pool empty),
      free-put 0 heap.memory lent a real,
      (
        ap (copies a) same ∙ rw answers (rw null (rw (==_refl a) (omega arith))),
        freed ∙ rw answers (ground (arith, not_pool, not_base)),
      ),
    )
