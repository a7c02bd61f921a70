-- ===== src/Storage.antt =====
-- What creating and destroying a set does with memory: src/crdt/g_set.c, src/crdt/or_set.c, where the
-- two are alike, and src/crdt/2p_set.c, over the pools of src/core/memory.c. The blocks of `malloc` and
-- `calloc` are among those of the heap.
pub mod Sets
pub mod Balance
use cauchy.Prelude.{ℕ, ◌+◌, Option, none, some, List, [], ◌∷◌, ◌==◌, if◌then◌else◌, replicate}
use cauchy.Pool.{Config}
use cauchy.Context.Lifecycle.{Heap, alloc_block, free_block, PlacedPool, create_pool, destroy_pool}

-- An element of a G-Set or an entry of an OR-Set: its address and `data`, 0 for none. It lies in a
-- block of the pool.
pub record Cell : Type 0 where
  pub address : ℕ
  pub text : ℕ

-- A G-Set or an OR-Set: its address, those of its buckets, its chains and its pool.
pub record Stored : Type 0 where
  pub address : ℕ
  pub buckets : ℕ
  pub chains : List (List Cell)
  pub pool : Option PlacedPool

-- `cfg` of the two initializations, by the size of an element or of an entry
abbrev pub set_config : ℕ → Config
set_config size = record {
  block_size = size + 64;
  initial_blocks = 128;
  max_blocks = 0;
  alignment = 8;
}

-- Creation, once it has asked for the pool ...
abbrev pub with_set_pool : ℕ → ℕ → ℕ → Option PlacedPool → Heap → Option Stored × Heap
with_set_pool address buckets capacity none heap =
    (none, free_block address (free_block buckets heap))
with_set_pool address buckets capacity (some p) heap = (
  some (record {
    address = address;
    buckets = buckets;
    chains = replicate capacity [];
    pool = some p;
  }),
  heap,
)

-- ... and once it has asked for the buckets.
abbrev pub with_buckets : ℕ → ℕ → ℕ → Config → Heap → Option Stored × Heap
with_buckets address buckets capacity config heap =
    let (pool, heap1) = create_pool heap config in
    if buckets == 0
    then (none, free_block address heap)
    else with_set_pool address buckets capacity pool heap1

abbrev pub with_set : ℕ → ℕ → Config → Heap → Option Stored × Heap
with_set address initial_capacity config heap =
    let (buckets, heap1) = alloc_block heap in
    if address == 0
    then (none, heap)
    else with_buckets address buckets (if initial_capacity == 0 then 16 else initial_capacity)
        config heap1

-- `cauchy_gset_create`
unfoldable pub create_set : Heap → ℕ → ℕ → Option Stored × Heap
create_set heap size initial_capacity =
    let (address, heap1) = alloc_block heap in
    with_set address initial_capacity (set_config size) heap1

-- The loops of the destruction over a chain and over the buckets.
abbrev pub free_chain : List Cell → Heap → Heap
free_chain [] heap = heap
free_chain (cell ∷ cells) heap = free_chain cells (free_block cell.text heap)

abbrev pub free_chains : List (List Cell) → Heap → Heap
free_chains [] heap = heap
free_chains (chain ∷ chains) heap = free_chains chains (free_chain chain heap)

-- `cauchy_gset_destroy`
unfoldable pub destroy_set : Option Stored → Heap → Heap
destroy_set none heap = heap
destroy_set (some set) heap =
    free_block set.address
      (destroy_pool set.pool (free_block set.buckets (free_chains set.chains heap)))

-- `cauchy_orset_create`, with entries of `size` bytes; its calls for memory are those of a G-Set.
abbrev pub create_orset : Heap → ℕ → ℕ → Option Stored × Heap
create_orset = create_set

-- `cauchy_orset_destroy`
abbrev pub destroy_orset : Option Stored → Heap → Heap
destroy_orset = destroy_set

-- A 2P-Set at its address.
pub record StoredPair : Type 0 where
  pub address : ℕ
  pub added : Stored
  pub removed : Stored

abbrev pub with_removed : ℕ → Stored → Option Stored → Heap → Option StoredPair × Heap
with_removed address added none heap = (none, free_block address (destroy_set (some added) heap))
with_removed address added (some removed) heap =
    (some (record { address = address; added = added; removed = removed }), heap)

abbrev pub with_added : ℕ → ℕ → ℕ → Option Stored → Heap → Option StoredPair × Heap
with_added address size initial_capacity none heap = (none, free_block address heap)
with_added address size initial_capacity (some added) heap =
    let (removed, heap1) = create_set heap size initial_capacity in
    with_removed address added removed heap1

abbrev pub with_pair : ℕ → ℕ → ℕ → Heap → Option StoredPair × Heap
with_pair address size initial_capacity heap =
    let (added, heap1) = create_set heap size initial_capacity in
    if address == 0 then (none, heap) else with_added address size initial_capacity added heap1

-- `cauchy_2pset_create`
unfoldable pub create_pair : Heap → ℕ → ℕ → Option StoredPair × Heap
create_pair heap size initial_capacity =
    let (address, heap1) = alloc_block heap in with_pair address size initial_capacity heap1

-- `cauchy_2pset_destroy`
unfoldable pub destroy_pair : Option StoredPair → Heap → Heap
destroy_pair none heap = heap
destroy_pair (some set) heap =
    free_block set.address (destroy_set (some set.removed) (destroy_set (some set.added) heap))
