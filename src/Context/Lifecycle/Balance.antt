-- ===== src/Context/Lifecycle/Balance.antt =====
-- That a context keeps track of its memory: what is obtained and not freed is what it holds.
use cauchy.Prelude.{
  ℕ, ◌+◌, ◌<◌, ◌≡◌, refl, ap, ◌∙◌, Option, none, some, List, [], ◌∷◌, ◌==◌, arith, Bool-cases,
  if_elim, inl, inr, ==_iff,
}
use cauchy.Context
use cauchy.Context.{Context}
use cauchy.Pool.Blocks.{copies}
use cauchy.Hazard.{HazardRecord, HazardDomain}
use cauchy.Hazard.Retire.{domain_create}
use cauchy.Context.Lifecycle.{
  Heap, alloc_block, free_block, PlacedPool, create_pool, destroy_pool, OwnedDomain, create_domain,
  with_pool, with_domain, with_pools, free_records, destroy_domain, Node, create_at, create_node,
  destroy_node, retired_config, context_config,
}
use cauchy.Context.Lifecycle.Blocks.{
  pool_blocks, null_block, returned, record_blocks, domain_blocks, node_blocks, copies-append,
  Grows, alloc_block-Grows, Frees, free_block-Frees, create_pool-Grows, destroy_pool-Frees,
}

-- A domain stands at the address that its creation was given, and 0 is not one.
abbrev At : ℕ → Option HazardDomain → Type 0
At address none = address ≡ 0
At address (some domain) = (domain.address ≡ address) × (domain.records ≡ [])

domain_create-At : (address : ℕ) → At address (domain_create address)
unfolding domain_create
domain_create-At address = elim (Bool-cases (address == 0)) [
  | inl null ↦ rw null ((==_iff address 0).0 null)
  | inr block ↦ rw block (refl, refl)
]

-- The call that was given `address` between two heaps keeps `blocks`, the address among them, or
-- freed it.
abbrev pub Keeps : ℕ → Heap → Heap → List ℕ → Type 0
Keeps address old new blocks =
    (x : ℕ)
    → 0 < x
    → copies x new.obtained + copies x old.freed + copies x (address ∷ [])
      ≡ copies x old.obtained + copies x new.freed + copies x blocks

with_pool-Keeps :
    (address : ℕ) (made : Option HazardDomain) (heap : Heap)
    → At address made
    → Keeps address heap (with_pool made heap).1 (domain_blocks (with_pool made heap).0)
with_pool-Keeps address none heap null x given = ground (arith, null)
with_pool-Keeps address (some d) heap same x given =
    let rest = create_pool-Grows heap retired_config x given in
    rw (same.0, same.1) (omega (arith, rest))

create_domain-Grows :
    (heap : Heap) → Grows heap (create_domain heap).1 (domain_blocks (create_domain heap).0)
unfolding create_domain
create_domain-Grows heap x given =
    let address = (alloc_block heap).0 in
    let heap1 = (alloc_block heap).1 in
    let kept =
      with_pool-Keeps address (domain_create address) heap1 (domain_create-At address) x given in
    omega (arith, alloc_block-Grows heap x given, kept)

free_records-Frees :
    (records : List HazardRecord) (heap : Heap)
    → Frees heap (free_records records heap) (record_blocks records)
free_records-Frees [] heap x given = (refl, omega arith)
free_records-Frees (rec ∷ records) heap x given =
    let (same, first) = free_block-Frees rec.address heap x given in
    let (same', rest) = free_records-Frees records (free_block rec.address heap) x given in
    (same' ∙ same, omega (arith, first, rest))

destroy_domain-Frees :
    (d : Option OwnedDomain) (heap : Heap) → Frees heap (destroy_domain d heap).1 (domain_blocks d)
unfolding destroy_domain
destroy_domain-Frees none heap x given = (refl, omega arith)
destroy_domain-Frees (some d) heap x given =
    let heap1 = free_records d.domain.records heap in
    let heap2 = destroy_pool d.retired_pool heap1 in
    let (same1, freed1) = free_records-Frees d.domain.records heap x given in
    let (same2, freed2) = destroy_pool-Frees d.retired_pool heap1 x given in
    let (same3, freed3) = free_block-Frees d.domain.address heap2 x given in
    let parts = copies-append x (record_blocks d.domain.records) (pool_blocks d.retired_pool) in
    (same3 ∙ same2 ∙ same1, omega (arith, freed1, freed2, freed3, parts))

destroy_node-Frees :
    (node : Option Node) (heap : Heap) → Frees heap (destroy_node node heap).1 (node_blocks node)
unfolding destroy_node
destroy_node-Frees none heap x given = (refl, omega arith)
destroy_node-Frees (some node) heap x given =
    let heap1 = (destroy_domain (some node.hazard_domain) heap).1 in
    let heap2 = destroy_pool (some node.mem_pool) heap1 in
    let (same1, freed1) = destroy_domain-Frees (some node.hazard_domain) heap x given in
    let (same2, freed2) = destroy_pool-Frees (some node.mem_pool) heap1 x given in
    let (same3, freed3) = free_block-Frees node.address heap2 x given in
    (same3 ∙ same2 ∙ same1, omega (arith, freed1, freed2, freed3))

with_domain-Keeps :
    (address : ℕ) (p : PlacedPool) (context : Context) (d : Option OwnedDomain) (heap : Heap)
    (x : ℕ)
    → 0 < x
    → let (node, heap1) = with_domain address p (some context) d heap in
      copies x heap1.obtained
        + copies x heap.freed
        + copies x (address ∷ [])
        + copies x (pool_blocks (some p))
        + copies x (domain_blocks d)
      ≡ copies x heap.obtained + copies x heap1.freed + copies x (node_blocks node)
with_domain-Keeps address p context none heap x given =
    let heap1 = destroy_pool (some p) heap in
    let (same1, freed1) = destroy_pool-Frees (some p) heap x given in
    let (same2, freed2) = free_block-Frees address heap1 x given in
    omega (arith, ap (copies x) same1, ap (copies x) same2, freed1, freed2)
with_domain-Keeps address p context (some d) heap x given = ground arith

with_pools-Keeps :
    (address : ℕ) (context : Context) (p : Option PlacedPool) (heap : Heap) (x : ℕ)
    → 0 < x
    → let (node, heap1) = with_pools address (some context) p heap in
      copies x heap1.obtained
        + copies x heap.freed
        + copies x (address ∷ [])
        + copies x (pool_blocks p)
      ≡ copies x heap.obtained + copies x heap1.freed + copies x (node_blocks node)
with_pools-Keeps address context none heap x given =
    let (same, freed) = free_block-Frees address heap x given in
    omega (arith, ap (copies x) same, freed)
with_pools-Keeps address context (some p) heap x given =
    let d = (create_domain heap).0 in
    let heap1 = (create_domain heap).1 in
    omega
      (arith, create_domain-Grows heap x given, with_domain-Keeps address p context d heap1 x given)

create_at-Keeps :
    (address : ℕ) (context : Context) (heap : Heap)
    → Keeps address heap
        (create_at address (some context) heap).1
        (node_blocks (create_at address (some context) heap).0)
create_at-Keeps address context heap x given =
    let p = (create_pool heap context_config).0 in
    let heap1 = (create_pool heap context_config).1 in
    omega (
      arith,
      create_pool-Grows heap context_config x given,
      with_pools-Keeps address context p heap1 x given,
    )

create_node-Grows :
    (heap : Heap) (block : Context) (node_id : ℕ)
    → Grows heap (create_node heap block node_id).1 (node_blocks (create_node heap block node_id).0)
unfolding create_node Context.create
create_node-Grows heap block node_id x given =
    let address = (alloc_block heap).0 in
    let heap1 = (alloc_block heap).1 in
    let first = alloc_block-Grows heap x given in
    if_elim
      (λ (r : Option Node × Heap).
        copies x r.1.obtained + copies x heap.freed
        ≡ copies x heap.obtained + copies x r.1.freed + copies x (node_blocks r.0))
      (address == 0) _ _ (λ null. omega (arith, first, null_block address x null given))
      (omega (arith, first, create_at-Keeps address _ heap1 x given))

-- Creating a context and destroying it again gives back what it took: every block is freed as often
-- as it was obtained since, where the context may have gained further `blocks` of its own in
-- between, as the records of its threads. Where the creation fails, `node` and `used` are `none`,
-- and the creation alone has given back what it took.
pub context_memory :
    (heap heap' : Heap) (block : Context) (node_id : ℕ) (used : Option Node) (blocks : List ℕ)
    → let (node, heap1) = create_node heap block node_id in
      Grows heap1 heap' blocks
      → ((x : ℕ) → copies x (node_blocks used) ≡ copies x (node_blocks node) + copies x blocks)
      → Grows heap (destroy_node used heap').1 []
context_memory heap heap' block node_id used blocks between gained =
    let (node, heap1) = create_node heap block node_id in
    returned heap heap1 heap' ((destroy_node used heap').1) (node_blocks node) blocks
      (node_blocks used) (create_node-Grows heap block node_id) between gained
      (destroy_node-Frees used heap')
