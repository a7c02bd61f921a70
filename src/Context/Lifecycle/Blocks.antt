-- ===== src/Context/Lifecycle/Blocks.antt =====
-- The blocks that a context holds, and what the calls for a pool obtain and free.
use cauchy.Prelude.{
  ℕ, ◌+◌, ◌<◌, ◌≡◌, refl, sym, ap, ◌∙◌, Bool, true, false, ◌&&◌, not, Option, none, some, List, [],
  ◌∷◌, ◌++◌, ◌==◌, ltb, arith, Bool-cases, inl, inr, ==_iff,
}
use cauchy.Pool
use cauchy.Pool.{Memory, Config, Pool, carve}
use cauchy.Pool.Blocks.{copies}
use cauchy.Hazard.{HazardRecord}
use cauchy.Context.Lifecycle.{
  Heap, alloc_block, free_block, PlacedPool, placed, region, create_pool, destroy_pool, OwnedDomain,
  Node,
}

-- The blocks that a pool, a domain and a context consist of; 0 stands for no block.
abbrev pub pool_blocks : Option PlacedPool → List ℕ
pool_blocks none = []
pool_blocks (some p) = p.address ∷ p.pool.base_memory ∷ []

abbrev pub record_blocks : List HazardRecord → List ℕ
record_blocks [] = []
record_blocks (rec ∷ records) = rec.address ∷ record_blocks records

abbrev pub domain_blocks : Option OwnedDomain → List ℕ
domain_blocks none = []
domain_blocks (some d) =
    d.domain.address ∷ (record_blocks d.domain.records ++ pool_blocks d.retired_pool)

abbrev pub node_blocks : Option Node → List ℕ
node_blocks none = []
node_blocks (some node) =
    node.address ∷ (pool_blocks (some node.mem_pool) ++ domain_blocks (some node.hazard_domain))

pub copies-append : (x : ℕ) (xs ys : List ℕ) → copies x (xs ++ ys) ≡ copies x xs + copies x ys
copies-append x [] ys = omega arith
copies-append x (y ∷ xs) ys = let rest = copies-append x xs ys in omega (arith, rest)

-- Between two heaps, what was obtained and not freed grew by `blocks`.
abbrev pub Grows : Heap → Heap → List ℕ → Type 0
Grows old new blocks =
    (x : ℕ)
    → 0 < x
    → copies x new.obtained + copies x old.freed
      ≡ copies x old.obtained + copies x new.freed + copies x blocks

pub alloc_block-Grows : (heap : Heap) → Grows heap (alloc_block heap).1 ((alloc_block heap).0 ∷ [])
alloc_block-Grows heap x given = elim heap.answers [ [] ↦ ground arith | a ∷ rest ↦ ground arith ]

-- Between two heaps, each of `blocks` was freed, as often as it stands there, and nothing else.
abbrev pub Frees : Heap → Heap → List ℕ → Type 0
Frees old new blocks =
    (x : ℕ)
    → 0 < x
    → (new.obtained ≡ old.obtained) × (copies x new.freed ≡ copies x old.freed + copies x blocks)

pub free_block-Frees : (p : ℕ) (heap : Heap) → Frees heap (free_block p heap) (p ∷ [])
free_block-Frees p heap x given = elim (Bool-cases (p == 0)) [
  | inl null ↦ rw null (refl, ground arith)
  | inr block ↦ rw block (refl, omega arith)
]

abbrev Base : ℕ → Option (Memory × Pool) → Type 0
Base base none = base ≡ 0
Base base (some (memory, pool)) = pool.base_memory ≡ base

-- A pool has the region that its creation was given, and a creation that fails was given none.
create-Base :
    (here : Bool) (base : ℕ) (memory : Memory) (config : Config)
    → (here && ltb 0 config.initial_blocks ≡ false → base ≡ 0)
    → Base base (Pool.create here base memory (some config))
unfolding Pool.create
create-Base false base memory config none_given = none_given refl
create-Base true base memory config none_given = elim (Bool-cases (ltb 0 config.initial_blocks)) [
  | inl asked ↦ rw asked (elim (Bool-cases (base == 0)) [
    | inl null ↦ rw null ((==_iff base 0).0 null)
    | inr block ↦ rw block refl
  ])
  | inr unasked ↦ rw unasked (sym (none_given unasked))
]

region-Grows :
    (asked : Bool) (heap : Heap) → Grows heap (region asked heap).1 ((region asked heap).0 ∷ [])
region-Grows false heap x given = ground arith
region-Grows true heap x given = alloc_block-Grows heap x given

region_none : (asked : Bool) (heap : Heap) → asked ≡ false → (region asked heap).0 ≡ 0
region_none false heap e = refl
region_none true heap e = absurd (cc e)

placed_blocks :
    (address base : ℕ) (heap : Heap) (made : Option (Memory × Pool)) (x : ℕ)
    → 0 < x
    → Base base made
    → ((placed address heap made).1.obtained ≡ heap.obtained)
      × (copies x (placed address heap made).1.freed
            + copies x (pool_blocks (placed address heap made).0)
          ≡ copies x heap.freed + copies x (address ∷ base ∷ []))
placed_blocks address base heap none x given none_given =
    let (same, freed) = free_block-Frees address heap x given in
    (same, ground (arith, freed, none_given))
placed_blocks address base heap (some (memory, pool)) x given same = (refl, rw same refl)

pub create_pool-Grows :
    (heap : Heap) (config : Config)
    → Grows heap (create_pool heap config).1 (pool_blocks (create_pool heap config).0)
unfolding create_pool
create_pool-Grows heap config x given =
    let address = (alloc_block heap).0 in
    let heap1 = (alloc_block heap).1 in
    let asked = not (address == 0) && ltb 0 config.initial_blocks in
    let base = (region asked heap1).0 in
    let heap2 = (region asked heap1).1 in
    let made = Pool.create (not (address == 0)) base heap2.memory (some config) in
    let (same, blocks) =
      placed_blocks address base heap2 made x given
        (create-Base (not (address == 0)) base heap2.memory config (region_none asked heap1)) in
    let same' : copies x (placed address heap2 made).1.obtained ≡ copies x heap2.obtained =
      ap (copies x) same in
    omega (arith, same', blocks, alloc_block-Grows heap x given, region-Grows asked heap1 x given)

pub destroy_pool-Frees :
    (p : Option PlacedPool) (heap : Heap) → Frees heap (destroy_pool p heap) (pool_blocks p)
unfolding destroy_pool
destroy_pool-Frees none heap x given = (refl, omega arith)
destroy_pool-Frees (some p) heap x given =
    let (same, first) = free_block-Frees p.pool.base_memory heap x given in
    let (same', second) = free_block-Frees p.address (free_block p.pool.base_memory heap) x given in
    (same' ∙ same, omega (arith, first, second))

-- A block at 0 does not count.
pub null_block : (address x : ℕ) → (address == 0) ≡ true → 0 < x → copies x (address ∷ []) ≡ 0
null_block address x null given =
    ap (λ a. copies x (a ∷ [])) ((==_iff address 0).0 null) ∙ ground (arith, given)

-- What was obtained for `made`, then for `blocks`, and then freed with all of these in `used`.
pub returned :
    (heap heap1 heap' heap2 : Heap) (made blocks used : List ℕ)
    → Grows heap heap1 made
    → Grows heap1 heap' blocks
    → ((x : ℕ) → copies x used ≡ copies x made + copies x blocks)
    → Frees heap' heap2 used
    → Grows heap heap2 []
returned heap heap1 heap' heap2 made blocks used creation between gained destruction x given =
    let (same, freed) = destruction x given in
    omega (arith, creation x given, between x given, gained x, ap (copies x) same, freed)
