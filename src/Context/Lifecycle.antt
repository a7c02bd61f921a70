-- ===== src/Context/Lifecycle.antt =====
-- What creating and destroying a context does with memory: src/core/cauchy.c over the pools of
-- src/core/memory.c and the domains of src/core/hazard.c. The heap keeps a record of every block
-- that `cauchy_aligned_alloc` returned and that `cauchy_aligned_free` was given.
pub mod Blocks
pub mod Balance
pub mod Leak
use cauchy.Prelude.{
  ℕ, ◌<◌, Bool, true, false, ◌&&◌, not, Option, none, some, List, [], ◌∷◌, ◌++◌, ◌==◌, ltb,
  if◌then◌else◌, map,
}
use cauchy.Context
use cauchy.Context.{Context}
use cauchy.Pool
use cauchy.Pool.{Memory, Config, Pool, cache_line_size, default_config}
use cauchy.Hazard.{HazardRecord, HazardDomain}
use cauchy.Hazard.Retire.{domain_create, domain_destroy}

-- `answers` is what `cauchy_aligned_alloc` returns from now on, and 0 after that.
pub record Heap : Type 0 where
  pub answers : List ℕ
  pub obtained : List ℕ
  pub freed : List ℕ
  pub memory : Memory

abbrev pub alloc_block : Heap → ℕ × Heap
alloc_block heap = elim heap.answers [
  | [] ↦ (0, heap)
  | a ∷ rest ↦ (
    a,
    record heap { answers = rest; obtained = if a == 0 then heap.obtained else a ∷ heap.obtained },
  )
]

-- `cauchy_aligned_free`, which does nothing for NULL
abbrev pub free_block : ℕ → Heap → Heap
free_block p heap = if p == 0 then heap else record heap { freed = p ∷ heap.freed }

-- A pool at its address.
pub record PlacedPool : Type 0 where
  pub address : ℕ
  pub pool : Pool

-- What `Pool.create` made of the answers, and the pool freed again where it failed.
abbrev pub placed : ℕ → Heap → Option (Memory × Pool) → Option PlacedPool × Heap
placed address heap none = (none, free_block address heap)
placed address heap (some (memory, pool)) =
    (some (record { address = address; pool = pool }), record heap { memory = memory })

-- The region of a pool, where blocks are asked for.
abbrev pub region : Bool → Heap → ℕ × Heap
region asked heap = if asked then alloc_block heap else (0, heap)

-- `cauchy_pool_create`: the pool, and, where blocks are asked for, their region.
unfoldable pub create_pool : Heap → Config → Option PlacedPool × Heap
create_pool heap config =
    let (address, heap1) = alloc_block heap in
    let here = not (address == 0) in
    let (base, heap2) = region (here && ltb 0 config.initial_blocks) heap1 in
    placed address heap2 (Pool.create here base heap2.memory (some config))

-- `cauchy_pool_destroy`
unfoldable pub destroy_pool : Option PlacedPool → Heap → Heap
destroy_pool none heap = heap
destroy_pool (some p) heap = free_block p.address (free_block p.pool.base_memory heap)

-- `struct cauchy_hazard_domain` with its pool, which may be NULL.
pub record OwnedDomain : Type 0 where
  pub domain : HazardDomain
  pub retired_pool : Option PlacedPool

-- `cfg` of `cauchy_hazard_domain_create`
abbrev pub retired_config : Config
retired_config = record { block_size = 32; initial_blocks = 256; max_blocks = 0; alignment = 8 }

-- What `cauchy_hazard_domain_create` does once it has asked for the domain.
abbrev pub with_pool : Option HazardDomain → Heap → Option OwnedDomain × Heap
with_pool none heap = (none, heap)
with_pool (some domain) heap =
    let (pool, heap1) = create_pool heap retired_config in
    (some (record { domain = domain; retired_pool = pool }), heap1)

-- `cauchy_hazard_domain_create`
unfoldable pub create_domain : Heap → Option OwnedDomain × Heap
create_domain heap =
    let (address, heap1) = alloc_block heap in with_pool (domain_create address) heap1

-- The loop of `cauchy_hazard_domain_destroy` over the records.
abbrev pub free_records : List HazardRecord → Heap → Heap
free_records [] heap = heap
free_records (rec ∷ records) heap = free_records records (free_block rec.address heap)

-- `cauchy_hazard_domain_destroy`: the calls of retire functions, and the heap.
unfoldable pub destroy_domain : Option OwnedDomain → Heap → List (ℕ × ℕ) × Heap
destroy_domain none heap = ([], heap)
destroy_domain (some d) heap = (
  domain_destroy d.domain.records,
  free_block d.domain.address (destroy_pool d.retired_pool (free_records d.domain.records heap)),
)

-- `cauchy_context_t` at its address, with what it points to.
pub record Node : Type 0 where
  pub address : ℕ
  pub context : Context
  pub mem_pool : PlacedPool
  pub hazard_domain : OwnedDomain

-- `pool_cfg` of `cauchy_context_create`
abbrev pub context_config : Config
context_config = record default_config { block_size = 128; initial_blocks = 4096 }

-- What `cauchy_context_create` does once it has made its pool and asked for a domain. The fields of a
-- context that has both are those of `Context.create`, which is not NULL.
abbrev pub with_domain :
    ℕ → PlacedPool → Option Context → Option OwnedDomain → Heap → Option Node × Heap
with_domain address p context none heap = (none, free_block address (destroy_pool (some p) heap))
with_domain address p none (some d) heap = (none, heap)
with_domain address p (some context) (some d) heap =
    (some (record { address = address; context = context; mem_pool = p; hazard_domain = d }), heap)

-- Once it has asked for the pool.
abbrev pub with_pools : ℕ → Option Context → Option PlacedPool → Heap → Option Node × Heap
with_pools address context none heap = (none, free_block address heap)
with_pools address context (some p) heap =
    let (domain, heap1) = create_domain heap in with_domain address p context domain heap1

-- Once it has its own memory.
abbrev pub create_at : ℕ → Option Context → Heap → Option Node × Heap
create_at address context heap =
    let (pool, heap1) = create_pool heap context_config in with_pools address context pool heap1

-- `cauchy_context_create`; `block` is what the memory of the context holds before.
unfoldable pub create_node : Heap → Context → ℕ → Option Node × Heap
create_node heap block node_id =
    let (address, heap1) = alloc_block heap in
    let context = Context.create (some block) true true node_id in
    if address == 0 then (none, heap1) else create_at address context heap1

-- `cauchy_context_destroy`: the calls of retire functions, and the heap.
unfoldable pub destroy_node : Option Node → Heap → List (ℕ × ℕ) × Heap
destroy_node none heap = ([], heap)
destroy_node (some node) heap =
    let (calls, heap1) = destroy_domain (some node.hazard_domain) heap in
    (calls, free_block node.address (destroy_pool (some node.mem_pool) heap1))
