-- ===== src/Tests/Storage.antt =====
-- Heaps that sets and pools use, and the theorems about what they give back.
use cauchy.Prelude.{◌+◌, ◌≡◌, refl, Option, some, [], ◌∷◌, arith}
use cauchy.Pool.{Memory, Pool, alloc, free}
use cauchy.Pool.Blocks.{copies}
use cauchy.Context.Lifecycle.{Heap, alloc_block, PlacedPool, destroy_pool}
use cauchy.Context.Lifecycle.Leak.{pool_leaks}
use cauchy.Storage.{StoredPair, create_pair, destroy_pair}
use cauchy.Storage.Balance.{pset_memory}

-- Memory for a 2P-Set, its two sets, and their buckets and pools.
abbrev heap : Heap
heap = record {
  answers = 16 ∷ 640 ∷ 704 ∷ 1280 ∷ 40960 ∷ 648 ∷ 832 ∷ 1408 ∷ 81920 ∷ [];
  obtained = [];
  freed = [];
  memory = λ address. 0;
}

abbrev made : Option StoredPair × Heap
made = create_pair heap 40 8

abbrev last : Heap
last = destroy_pair made.0 made.1

pset_memory_example : copies 704 last.obtained + 0 ≡ 0 + copies 704 last.freed + 0
pset_memory_example =
    pset_memory heap made.1 40 8 made.0 [] (λ x given. omega arith) (λ x. omega arith) 704
      (omega arith)

-- A pool whose blocks are all in use.
abbrev used_up : PlacedPool
used_up = record {
  address = 640;
  pool = record {
    free_list = 0;
    allocated = 2;
    freed = 0;
    peak_use = 2;
    total_allocs = 2;
    contention = 0;
    block_size = 64;
    alignment = 64;
    max_blocks = 0;
    base_memory = 1024;
    base_size = 128;
  };
}

abbrev single : Heap
single = record heap { answers = 4096 ∷ [] }

pool_leaks_example :
    (lent back : Pool) × (memory : Memory) × (alloc 1 4096 single.memory used_up.pool
      ≡ some (4096, lent))
    × (free 1 single.memory lent 4096 ≡ some (memory, back))
    × (let heap' = destroy_pool (some (record used_up { pool = back })) (alloc_block single).1 in
        (copies 4096 heap'.obtained ≡ 0 + 1) × (copies 4096 heap'.freed ≡ 0))
pool_leaks_example =
    pool_leaks single used_up 4096 [] refl (λ e. absurd (omega (arith, e))) refl
      (λ e. absurd (omega (arith, e))) (λ e. absurd (omega (arith, e)))
