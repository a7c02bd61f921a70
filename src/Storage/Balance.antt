-- ===== src/Storage/Balance.antt =====
-- That 2P-Sets keep track of their memory.
use cauchy.Prelude.{
  ℕ, ◌+◌, ◌<◌, ◌≡◌, refl, ap, ◌∙◌, Option, none, some, List, [], ◌∷◌, ◌++◌, ◌==◌, arith, if_elim,
}
use cauchy.Pool.Blocks.{copies}
use cauchy.Context.Lifecycle.{Heap, alloc_block}
use cauchy.Context.Lifecycle.Blocks.{
  null_block, returned, copies-append, Grows, alloc_block-Grows, Frees, free_block-Frees,
}
use cauchy.Context.Lifecycle.Balance.{Keeps}
use cauchy.Storage.{
  Stored, create_set, destroy_set, StoredPair, with_removed, with_added, with_pair, create_pair,
  destroy_pair,
}
use cauchy.Storage.Sets.{set_blocks, destroy_set-Frees, create_set-Grows}

-- The blocks that a 2P-Set consists of.
abbrev pub pair_blocks : Option StoredPair → List ℕ
pair_blocks none = []
pair_blocks (some set) =
    set.address ∷ (set_blocks (some set.added) ++ set_blocks (some set.removed))

with_removed-Keeps :
    (address : ℕ) (added : Stored) (removed : Option Stored) (heap : Heap) (x : ℕ)
    → 0 < x
    → let (pair, heap1) = with_removed address added removed heap in
      copies x heap1.obtained
        + copies x heap.freed
        + copies x (address ∷ [])
        + copies x (set_blocks (some added))
        + copies x (set_blocks removed)
      ≡ copies x heap.obtained + copies x heap1.freed + copies x (pair_blocks pair)
with_removed-Keeps address added none heap x given =
    let (same1, freed1) = destroy_set-Frees (some added) heap x given in
    let (same2, freed2) = free_block-Frees address (destroy_set (some added) heap) x given in
    omega (arith, ap (copies x) same1, ap (copies x) same2, freed1, freed2)
with_removed-Keeps address added (some removed) heap x given =
    omega (arith, copies-append x (set_blocks (some added)) (set_blocks (some removed)))

with_added-Keeps :
    (address size initial_capacity : ℕ) (added : Option Stored) (heap : Heap) (x : ℕ)
    → 0 < x
    → let (pair, heap1) = with_added address size initial_capacity added heap in
      copies x heap1.obtained
        + copies x heap.freed
        + copies x (address ∷ [])
        + copies x (set_blocks added)
      ≡ copies x heap.obtained + copies x heap1.freed + copies x (pair_blocks pair)
with_added-Keeps address size initial_capacity none heap x given =
    let (same, freed) = free_block-Frees address heap x given in
    omega (arith, ap (copies x) same, freed)
with_added-Keeps address size initial_capacity (some added) heap x given =
    let removed = (create_set heap size initial_capacity).0 in
    let heap1 = (create_set heap size initial_capacity).1 in
    omega (
      arith,
      create_set-Grows heap size initial_capacity x given,
      with_removed-Keeps address added removed heap1 x given,
    )

with_pair-Keeps :
    (address size initial_capacity : ℕ) (heap : Heap)
    → Keeps address heap
        (with_pair address size initial_capacity heap).1
        (pair_blocks (with_pair address size initial_capacity heap).0)
with_pair-Keeps address size initial_capacity heap x given =
    let added = (create_set heap size initial_capacity).0 in
    let heap1 = (create_set heap size initial_capacity).1 in
    if_elim
      (λ (r : Option StoredPair × Heap).
        copies x r.1.obtained + copies x heap.freed + copies x (address ∷ [])
        ≡ copies x heap.obtained + copies x r.1.freed + copies x (pair_blocks r.0))
      (address == 0) _ _ (λ null. omega (arith, null_block address x null given))
      (omega (
        arith,
        create_set-Grows heap size initial_capacity x given,
        with_added-Keeps address size initial_capacity added heap1 x given,
      ))

destroy_pair-Frees :
    (pair : Option StoredPair) (heap : Heap)
    → Frees heap (destroy_pair pair heap) (pair_blocks pair)
unfolding destroy_pair
destroy_pair-Frees none heap x given = (refl, omega arith)
destroy_pair-Frees (some pair) heap x given =
    let heap1 = destroy_set (some pair.added) heap in
    let heap2 = destroy_set (some pair.removed) heap1 in
    let (same1, freed1) = destroy_set-Frees (some pair.added) heap x given in
    let (same2, freed2) = destroy_set-Frees (some pair.removed) heap1 x given in
    let (same3, freed3) = free_block-Frees pair.address heap2 x given in
    let parts = copies-append x (set_blocks (some pair.added)) (set_blocks (some pair.removed)) in
    (same3 ∙ same2 ∙ same1, omega (arith, freed1, freed2, freed3, parts))

create_pair-Grows :
    (heap : Heap) (size initial_capacity : ℕ)
    → Grows heap
        (create_pair heap size initial_capacity).1
        (pair_blocks (create_pair heap size initial_capacity).0)
unfolding create_pair
create_pair-Grows heap size initial_capacity x given = omega (
  arith,
  alloc_block-Grows heap x given,
  with_pair-Keeps (alloc_block heap).0 size initial_capacity (alloc_block heap).1 x given,
)

-- Creating a 2P-Set and destroying it again gives back what it took: every block is freed as often
-- as it was obtained since, where the sets may have gained further `blocks` of their own in between,
-- as the data of their elements. Where the creation fails, `pair` and `used` are `none`, and the
-- creation alone has given back what it took.
pub pset_memory :
    (heap heap' : Heap) (size initial_capacity : ℕ) (used : Option StoredPair) (blocks : List ℕ)
    → let (pair, heap1) = create_pair heap size initial_capacity in
      Grows heap1 heap' blocks
      → ((x : ℕ) → copies x (pair_blocks used) ≡ copies x (pair_blocks pair) + copies x blocks)
      → Grows heap (destroy_pair used heap') []
pset_memory heap heap' size initial_capacity used blocks between gained =
    let (pair, heap1) = create_pair heap size initial_capacity in
    returned heap heap1 heap' (destroy_pair used heap') (pair_blocks pair) blocks (pair_blocks used)
      (create_pair-Grows heap size initial_capacity) between gained (destroy_pair-Frees used heap')
