-- ===== src/Pool.antt =====
-- src/core/memory.c and the pool of include/cauchy/memory.h, for calls one after the other. An
-- address is a number, 0 is NULL, and the memory holds the first word of each block, which is the
-- field `next` of a free one. The pointer to the pool is not NULL, where every call returns at once. A loop around a compare-and-swap takes fuel for its rounds.
pub mod Blocks
pub mod States
pub mod Exclusive
pub mod Create
pub mod Races
pub mod Rounding
pub mod Aligned
pub mod Wipe
use mathlib.Core.Option
use cauchy.Prelude.{
  ℕ, zero, suc, ◌+◌, ◌*◌, ◌/◌, ◌-◌, ◌%◌, Bool, true, false, ◌&&◌, not, Option, none, some, List, [],
  ◌∷◌, ◌==◌, ltb, if◌then◌else◌,
}
use cauchy.Cells.{u64_mod}
use cauchy.Platform
use cauchy.Platform.{arch_x86_64}
use cauchy.Atomic.{load, store, Swap, cas, fetch_add_u64}

abbrev pub Memory : Type 0
Memory = ℕ → ℕ

-- `node->next = next`
abbrev pub write : Memory → ℕ → ℕ → Memory
write memory node next address = if address == node then next else memory address

-- `cauchy_pool_config_t`
pub record Config : Type 0 where
  pub block_size : ℕ
  pub initial_blocks : ℕ
  pub max_blocks : ℕ
  pub alignment : ℕ

-- `CAUCHY_CACHE_LINE_SIZE` of a 64-bit machine
abbrev pub cache_line_size : ℕ
cache_line_size = Platform.cache_line_size arch_x86_64

abbrev pub default_config : Config
default_config = record {
  block_size = 64;
  initial_blocks = 1024;
  max_blocks = 0;
  alignment = cache_line_size;
}

-- `struct cauchy_pool`
pub record Pool : Type 0 where
  pub free_list : ℕ
  pub allocated : ℕ
  pub freed : ℕ
  pub peak_use : ℕ
  pub total_allocs : ℕ
  pub contention : ℕ
  pub block_size : ℕ
  pub alignment : ℕ
  pub max_blocks : ℕ
  pub base_memory : ℕ
  pub base_size : ℕ

-- `x & ~mask` on words of as many bits
abbrev pub and_not : ℕ → ℕ → ℕ → ℕ
and_not zero x mask = 0
and_not (suc bits) x mask =
    (if (x % 2 == 1) && (mask % 2 == 0) then 1 else 0) + 2 * and_not bits (x / 2) (mask / 2)

-- `actual_block_size`, at least `sizeof(pool_node_t)`
unfoldable pub actual_block_size : ℕ → ℕ → ℕ
actual_block_size block_size alignment =
    let size =
      and_not 64 ((block_size + alignment + u64_mod - 1) % u64_mod)
        ((alignment + u64_mod - 1) % u64_mod) in
    if ltb size 8 then 8 else size

-- The loop of `create` over the blocks, each in front of the free list. The address of a block is
-- that of the last one and the size, on 64 bits.
abbrev pub carve : ℕ → ℕ → ℕ → Memory → ℕ → Memory × ℕ
carve zero size block memory head = (memory, head)
carve (suc blocks) size block memory head =
    carve blocks size ((block + size) % u64_mod) (write memory block (load head)) (store head block)

-- After `memset`, with the configuration.
abbrev pub blank : ℕ → Config → Pool
blank size cfg = record {
  free_list = 0;
  allocated = 0;
  freed = 0;
  peak_use = 0;
  total_allocs = 0;
  contention = 0;
  block_size = size;
  alignment = cfg.alignment;
  max_blocks = cfg.max_blocks;
  base_memory = 0;
  base_size = 0;
}

-- With the first blocks; `base` is what `cauchy_aligned_alloc` answers for `total_size` bytes, the
-- `base_size` that is left in the pool, which wraps.
abbrev pub with_blocks : ℕ → ℕ → Config → Memory → Option (Memory × Pool)
with_blocks base size cfg memory =
    let (memory', head) = carve cfg.initial_blocks size base memory 0 in
    if base == 0
    then none
    else some (
      memory',
      record (blank size cfg) {
        free_list = head;
        allocated = cfg.initial_blocks;
        base_memory = base;
        base_size = (size * cfg.initial_blocks) % u64_mod;
      },
    )

-- `if (cfg.alignment == 0) cfg.alignment = CAUCHY_CACHE_LINE_SIZE`
abbrev pub alignment_of : Config → ℕ
alignment_of config = if config.alignment == 0 then cache_line_size else config.alignment

-- `cauchy_pool_create`, by a configuration that is not NULL
abbrev pub create_with : Bool → ℕ → Memory → Config → Option (Memory × Pool)
create_with false base memory config = none
create_with true base memory config =
    let cfg = record config { alignment = alignment_of config } in
    let size = actual_block_size cfg.block_size cfg.alignment in
    if ltb 0 cfg.initial_blocks
    then with_blocks base size cfg memory
    else some (memory, blank size cfg)

-- `pool_here` says whether there is memory for the pool itself.
unfoldable pub create : Bool → ℕ → Memory → Option Config → Option (Memory × Pool)
create pool_here base memory none = create_with pool_here base memory default_config
create pool_here base memory (some config) = create_with pool_here base memory config

-- What `destroy` gives back besides the pool.
unfoldable pub destroy : Pool → List ℕ
destroy pool = if pool.base_memory == 0 then [] else pool.base_memory ∷ []

-- `cauchy_atomic_cas_ptr(&pool->free_list, &expected, desired)`
abbrev pub swap_head : Pool → ℕ → ℕ → Bool × Pool
swap_head pool expected desired =
    let swap = cas pool.free_list expected desired in
    (swap.won, record pool { free_list = swap.word })

-- The loop of `alloc`: NULL where the free list is empty.
abbrev pub pop : ℕ → Memory → Pool → Option (ℕ × Pool)
pop zero memory pool = none
pop (suc fuel) memory pool =
    let node = load pool.free_list in
    let (won, pool') = swap_head pool node (memory node) in
    let rest = pop fuel memory pool' in
    if node == 0 then some (0, pool) else (if won then some (node, pool') else rest)

-- `while (in_use > peak)`
abbrev pub raise_peak : ℕ → ℕ → ℕ → Pool → Option Pool
raise_peak zero in_use peak pool = none
raise_peak (suc fuel) in_use peak pool =
    let swap = cas pool.peak_use peak in_use in
    let pool' = record pool { peak_use = swap.word } in
    let rest = raise_peak fuel in_use swap.expected pool' in
    if ltb peak in_use then (if swap.won then some pool' else rest) else some pool

-- The difference of the two counters, as C computes it.
abbrev pub in_use_of : Pool → ℕ
in_use_of pool = (load pool.allocated + u64_mod - load pool.freed) % u64_mod

-- Behind the loop: `new_block` is what `cauchy_aligned_alloc` answers.
abbrev pub finish : ℕ → ℕ → ℕ × Pool → Option (ℕ × Pool)
finish fuel new_block (node, pool) =
    if node == 0
    then some (
      new_block,
      if new_block == 0 then pool else record pool { allocated = fetch_add_u64 pool.allocated 1 },
    )
    else Option.map (λ pool'. (node, pool'))
        (raise_peak fuel (in_use_of pool) (load pool.peak_use) pool)

unfoldable pub alloc : ℕ → ℕ → Memory → Pool → Option (ℕ × Pool)
alloc fuel new_block memory pool =
    Option.bind (pop fuel memory (record pool { total_allocs = fetch_add_u64 pool.total_allocs 1 }))
      (finish fuel new_block)

-- The loop of `free`.
abbrev pub push : ℕ → Memory → Pool → ℕ → Option (Memory × Pool)
push zero memory pool node = none
push (suc fuel) memory pool node =
    let head = load pool.free_list in
    let memory' = write memory node head in
    let (won, pool') = swap_head pool head node in
    let rest = push fuel memory' pool' node in if won then some (memory', pool') else rest

abbrev pub count_free : Memory × Pool → Memory × Pool
count_free (memory, pool) = (memory, record pool { freed = fetch_add_u64 pool.freed 1 })

unfoldable pub free : ℕ → Memory → Pool → ℕ → Option (Memory × Pool)
free fuel memory pool block =
    if block == 0 then some (memory, pool) else Option.map count_free (push fuel memory pool block)

-- `cauchy_pool_stats_t`
pub record Stats : Type 0 where
  pub allocated : ℕ
  pub freed : ℕ
  pub in_use : ℕ
  pub peak_use : ℕ
  pub total_allocs : ℕ
  pub contention : ℕ

unfoldable pub get_stats : Option Pool → Stats
get_stats none = record {
  allocated = 0;
  freed = 0;
  in_use = 0;
  peak_use = 0;
  total_allocs = 0;
  contention = 0;
}
get_stats (some pool) = record {
  allocated = load pool.allocated;
  freed = load pool.freed;
  in_use = in_use_of pool;
  peak_use = load pool.peak_use;
  total_allocs = load pool.total_allocs;
  contention = load pool.contention;
}
