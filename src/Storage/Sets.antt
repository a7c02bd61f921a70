-- ===== src/Storage/Sets.antt =====
-- That G-Sets and OR-Sets keep track of their memory.
use cauchy.Prelude.{
  ℕ, zero, suc, ◌+◌, ◌<◌, ◌≡◌, refl, ap, ◌∙◌, Option, none, some, List, [], ◌∷◌, ◌++◌, ◌==◌,
  if◌then◌else◌, replicate, arith, if_elim,
}
use cauchy.Pool.{Config}
use cauchy.Pool.Blocks.{copies}
use cauchy.Context.Lifecycle.{Heap, alloc_block, free_block, PlacedPool, create_pool, destroy_pool}
use cauchy.Context.Lifecycle.Blocks.{
  pool_blocks, null_block, returned, copies-append, Grows, alloc_block-Grows, Frees,
  free_block-Frees, create_pool-Grows, destroy_pool-Frees,
}
use cauchy.Context.Lifecycle.Balance.{Keeps}
use cauchy.Storage.{
  Cell, Stored, set_config, with_set_pool, with_buckets, with_set, create_set, free_chain,
  free_chains, destroy_set, create_orset, destroy_orset,
}

-- The blocks that a set consists of, but those of its pool's elements, which lie in the region of
-- the pool.
abbrev pub chain_blocks : List Cell → List ℕ
chain_blocks [] = []
chain_blocks (cell ∷ cells) = cell.text ∷ chain_blocks cells

abbrev pub chains_blocks : List (List Cell) → List ℕ
chains_blocks [] = []
chains_blocks (chain ∷ chains) = chain_blocks chain ++ chains_blocks chains

abbrev pub set_blocks : Option Stored → List ℕ
set_blocks none = []
set_blocks (some set) =
    set.address ∷ (set.buckets ∷ (chains_blocks set.chains ++ pool_blocks set.pool))

no_chains : (capacity : ℕ) → chains_blocks (replicate capacity []) ≡ []
no_chains zero = refl
no_chains (suc capacity) = no_chains capacity

free_chain-Frees :
    (chain : List Cell) (heap : Heap) → Frees heap (free_chain chain heap) (chain_blocks chain)
free_chain-Frees [] heap x given = (refl, omega arith)
free_chain-Frees (cell ∷ cells) heap x given =
    let (same, first) = free_block-Frees cell.text heap x given in
    let (same', rest) = free_chain-Frees cells (free_block cell.text heap) x given in
    (same' ∙ same, omega (arith, first, rest))

free_chains-Frees :
    (chains : List (List Cell)) (heap : Heap)
    → Frees heap (free_chains chains heap) (chains_blocks chains)
free_chains-Frees [] heap x given = (refl, omega arith)
free_chains-Frees (chain ∷ chains) heap x given =
    let (same, first) = free_chain-Frees chain heap x given in
    let (same', rest) = free_chains-Frees chains (free_chain chain heap) x given in
    let parts = copies-append x (chain_blocks chain) (chains_blocks chains) in
    (same' ∙ same, omega (arith, first, rest, parts))

pub destroy_set-Frees :
    (set : Option Stored) (heap : Heap) → Frees heap (destroy_set set heap) (set_blocks set)
unfolding destroy_set
destroy_set-Frees none heap x given = (refl, omega arith)
destroy_set-Frees (some set) heap x given =
    let heap1 = free_chains set.chains heap in
    let heap2 = free_block set.buckets heap1 in
    let (same1, freed1) = free_chains-Frees set.chains heap x given in
    let (same2, freed2) = free_block-Frees set.buckets heap1 x given in
    let (same3, freed3) = destroy_pool-Frees set.pool heap2 x given in
    let (same4, freed4) = free_block-Frees set.address (destroy_pool set.pool heap2) x given in
    let parts = copies-append x (chains_blocks set.chains) (pool_blocks set.pool) in
    (same4 ∙ same3 ∙ same2 ∙ same1, omega (arith, freed1, freed2, freed3, freed4, parts))

with_set_pool-Keeps :
    (address buckets capacity : ℕ) (p : Option PlacedPool) (heap : Heap) (x : ℕ)
    → 0 < x
    → let (set, heap1) = with_set_pool address buckets capacity p heap in
      copies x heap1.obtained
        + copies x heap.freed
        + copies x (address ∷ buckets ∷ [])
        + copies x (pool_blocks p)
      ≡ copies x heap.obtained + copies x heap1.freed + copies x (set_blocks set)
with_set_pool-Keeps address buckets capacity none heap x given =
    let (same1, freed1) = free_block-Frees buckets heap x given in
    let (same2, freed2) = free_block-Frees address (free_block buckets heap) x given in
    omega (arith, ap (copies x) same1, ap (copies x) same2, freed1, freed2)
with_set_pool-Keeps address buckets capacity (some p) heap x given =
    rw (no_chains capacity) (omega arith)

with_buckets-Keeps :
    (address buckets capacity : ℕ) (config : Config) (heap : Heap) (x : ℕ)
    → 0 < x
    → let (set, heap1) = with_buckets address buckets capacity config heap in
      copies x heap1.obtained + copies x heap.freed + copies x (address ∷ buckets ∷ [])
      ≡ copies x heap.obtained + copies x heap1.freed + copies x (set_blocks set)
with_buckets-Keeps address buckets capacity config heap x given =
    let p = (create_pool heap config).0 in
    let heap1 = (create_pool heap config).1 in
    if_elim
      (λ (r : Option Stored × Heap).
        copies x r.1.obtained + copies x heap.freed + copies x (address ∷ buckets ∷ [])
        ≡ copies x heap.obtained + copies x r.1.freed + copies x (set_blocks r.0))
      (buckets == 0) _ _
      (λ null.
        let (same, freed) = free_block-Frees address heap x given in
        omega (arith, ap (copies x) same, freed, null_block buckets x null given))
      (omega (
        arith,
        create_pool-Grows heap config x given,
        with_set_pool-Keeps address buckets capacity p heap1 x given,
      ))

with_set-Keeps :
    (address initial_capacity : ℕ) (config : Config) (heap : Heap)
    → Keeps address heap
        (with_set address initial_capacity config heap).1
        (set_blocks (with_set address initial_capacity config heap).0)
with_set-Keeps address initial_capacity config heap x given =
    let buckets = (alloc_block heap).0 in
    let heap1 = (alloc_block heap).1 in
    if_elim
      (λ (r : Option Stored × Heap).
        copies x r.1.obtained + copies x heap.freed + copies x (address ∷ [])
        ≡ copies x heap.obtained + copies x r.1.freed + copies x (set_blocks r.0))
      (address == 0) _ _ (λ null. omega (arith, null_block address x null given))
      (omega (
        arith,
        alloc_block-Grows heap x given,
        with_buckets-Keeps address buckets (if initial_capacity == 0 then 16 else initial_capacity)
            config heap1 x given,
      ))

pub create_set-Grows :
    (heap : Heap) (size initial_capacity : ℕ)
    → Grows heap
        (create_set heap size initial_capacity).1
        (set_blocks (create_set heap size initial_capacity).0)
unfolding create_set
create_set-Grows heap size initial_capacity x given = omega (
  arith,
  alloc_block-Grows heap x given,
  with_set-Keeps (alloc_block heap).0 initial_capacity (set_config size) (alloc_block heap).1 x
      given,
)

-- Creating an OR-Set and destroying it again gives back what it took: every block is freed
-- as often as it was obtained since, where the set may have gained further `blocks` of its own in
-- between, as the data of its elements. Where the creation fails, `set` and `used` are `none`, and
-- the creation alone has given back what it took.
pub orset_memory :
    (heap heap' : Heap) (size initial_capacity : ℕ) (used : Option Stored) (blocks : List ℕ)
    → let (set, heap1) = create_orset heap size initial_capacity in
      Grows heap1 heap' blocks
      → ((x : ℕ) → copies x (set_blocks used) ≡ copies x (set_blocks set) + copies x blocks)
      → Grows heap (destroy_orset used heap') []
orset_memory heap heap' size initial_capacity used blocks between gained =
    let (set, heap1) = create_set heap size initial_capacity in
    returned heap heap1 heap' (destroy_set used heap') (set_blocks set) blocks (set_blocks used)
      (create_set-Grows heap size initial_capacity) between gained (destroy_set-Frees used heap')
