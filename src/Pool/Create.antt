-- ===== src/Pool/Create.antt =====
-- A new pool: its blocks are carved out of one region.
use native.Mathlib.Nat.{mul-suc}
use cauchy.Prelude.{
  ℕ, zero, suc, ◌+◌, ◌-◌, ◌*◌, ◌%◌, ◌≤◌, ◌<◌, ◌≡◌, ◌≢◌, refl, true, false, none, some, List, [],
  ◌∷◌, ◌==◌, ltb, if◌then◌else◌, arith, Bool-cases, inl, inr, ◌⊎◌, ==_refl, ==_iff,
}
use cauchy.Cells.{u64_mod}
use cauchy.Pool.{
  Memory, write, Config, Pool, actual_block_size, carve, create, alignment_of, and_not, blank,
}
use cauchy.Pool.Blocks.{IsChain, copies, IsChain-write}
use cauchy.Pool.States.{IsSound}

-- `count` blocks of `size` bytes from `block` on, the last one first, in front of `xs`.
abbrev pub region : ℕ → ℕ → ℕ → List ℕ → List ℕ
region zero size block xs = xs
region (suc count) size block xs = region count size (block + size) (block ∷ xs)

-- Every address in the list is below `limit`, and none is NULL.
abbrev Below : ℕ → List ℕ → Type 0
Below limit [] = Unit
Below limit (x ∷ xs) = ((x < limit) × (x ≢ 0)) × Below limit xs

Below-mono : (a b : ℕ) (xs : List ℕ) → a ≤ b → Below a xs → Below b xs
Below-mono a b [] le below = tt
Below-mono a b (x ∷ xs) le below =
    ((omega (arith, below.0.0), below.0.1), Below-mono a b xs le below.1)

Below-absent : (limit x : ℕ) (xs : List ℕ) → limit ≤ x → Below limit xs → copies x xs ≡ 0
Below-absent limit x [] le below = refl
Below-absent limit x (y ∷ ys) le below =
    let miss : (y == x) ≡ false = ground (arith, below.0.0) in
    rw miss (omega (arith, Below-absent limit x ys le below.1))

Below-null : (limit : ℕ) (xs : List ℕ) → Below limit xs → copies 0 xs ≡ 0
Below-null limit [] below = refl
Below-null limit (y ∷ ys) below =
    let miss : (y == 0) ≡ false = ground (arith, below.0.1) in
    rw miss (omega (arith, Below-null limit ys below.1))

once-cons :
    (block : ℕ) (xs : List ℕ)
    → Below block xs
    → ((x : ℕ) → copies x xs ≤ 1)
    → (x : ℕ) → copies x (block ∷ xs) ≤ 1
once-cons block xs below once x = elim (Bool-cases (block == x)) [
  | inl here ↦
      let e = (==_iff block x).0 here in
      rw here (omega (arith, Below-absent block x xs (omega (arith, e)) below))
  | inr there ↦ rw there (omega (arith, once x))
]

-- What carving comes to.
carve-region :
    (count size block head : ℕ) (memory : Memory) (xs : List ℕ)
    → 0 < size
    → 0 < block
    → block + size * count < u64_mod
    → Below block xs
    → ((x : ℕ) → copies x xs ≤ 1)
    → IsChain memory head xs
    → let (memory', head') = carve count size block memory head in
      IsChain memory' head' (region count size block xs)
      × ((x : ℕ) → copies x (region count size block xs) ≤ 1)
      × (copies 0 (region count size block xs) ≡ 0)
carve-region zero size block head memory xs wide there room below once chain =
    (chain, once, Below-null block xs below)
carve-region (suc count) size block head memory xs wide there room below once chain =
    let unlisted = Below-absent block block xs (omega arith) below in
    let linked = IsChain-write memory block head head xs unlisted chain in
    let more = mul-suc size count in
    let whole : (block + size) % u64_mod ≡ block + size = omega (arith, more) in
    rw (carve, whole)
      (carve-region count size (block + size) block (write memory block head) (block ∷ xs) wide
        (omega arith) (omega (arith, more))
        (
          (omega arith, λ e. absurd (omega (arith, e))),
          Below-mono block (block + size) xs (omega arith) below,
        )
        (once-cons block xs below once)
        (refl, λ e. absurd (omega (arith, e)), rw (==_refl block) linked))

-- Where the blocks of a region lie.
region_within :
    (count size block x : ℕ) (xs : List ℕ)
    → 0 < copies x (region count size block xs)
    → (0 < copies x xs) ⊎ ((block ≤ x) × (x + size ≤ block + size * count))
region_within zero size block x xs there = inl there
region_within (suc count) size block x xs there =
    let more = mul-suc size count in
    elim (region_within count size (block + size) x (block ∷ xs) there) [
      | inr (low, high) ↦ inr (omega (arith, low), omega (arith, high, more))
      | inl listed ↦ elim (Bool-cases (block == x)) [
        | inl here ↦
            let e = (==_iff block x).0 here in inr (omega (arith, e), omega (arith, e, more))
        | inr other ↦ inl (ground (arith, listed, other))
      ]
    ]

actual_positive : (block_size alignment : ℕ) → 0 < actual_block_size block_size alignment
unfolding actual_block_size
actual_positive block_size alignment = choose (
    and_not 64 ((block_size + alignment + u64_mod - 1) % u64_mod)
      ((alignment + u64_mod - 1) % u64_mod))
  where
    choose : (n : ℕ) → 0 < (if ltb n 8 then 8 else n)
    choose n = ground arith

-- A configuration with at least one block, whose blocks take less than 2 ^ 64 bytes, and a region
-- for them that ends within the address space: with memory, a pool is created with the blocks of its
-- region, none of them twice, each within the bytes that were asked for: a sound pool of which
-- nothing is lent. Without memory for itself or for the blocks there is no pool.
pub pool_create :
    (base : ℕ) (memory : Memory) (config : Config)
    → let size = actual_block_size config.block_size (alignment_of config) in
      0 < config.initial_blocks
      → base + size * config.initial_blocks < u64_mod
      → (0 < base
          → (memory' : Memory) × (pool : Pool) × (create true base memory (some config)
              ≡ some (memory', pool))
            × (pool.allocated ≡ config.initial_blocks)
            × ((x : ℕ)
                → 0 < copies x (region config.initial_blocks size base [])
                → (base ≤ x) × (x + size ≤ base + pool.base_size))
            × IsSound (record {
              memory = memory';
              pool = pool;
              lent = [];
              blocks = region config.initial_blocks size base [];
            }))
        × (create true 0 memory (some config) ≡ none)
        × (create false base memory (some config) ≡ none)
unfolding create
pool_create base memory config some_blocks room =
    let any : ltb 0 config.initial_blocks ≡ true = ground arith in
    let size = actual_block_size config.block_size (alignment_of config) in
    let cfg = record config { alignment = alignment_of config } in
    let total : (size * config.initial_blocks) % u64_mod ≡ size * config.initial_blocks =
      omega (arith, room) in
    (
      λ there.
          let used : (base == 0) ≡ false = ground arith in
          let (chain, once, null) =
            carve-region config.initial_blocks size base 0 memory []
              (actual_positive config.block_size (alignment_of config)) there room tt
              (λ x. omega arith) refl in
          let carved = carve config.initial_blocks size base memory 0 in
          (
            carved.0,
            record (blank size cfg) {
              free_list = carved.1;
              allocated = config.initial_blocks;
              base_memory = base;
              base_size = (size * config.initial_blocks) % u64_mod;
            },
            rw (any, used) refl,
            refl,
            λ x listed. elim (region_within config.initial_blocks size base x [] listed) [
              | inl nowhere ↦ absurd (omega (arith, nowhere))
              | inr (low, high) ↦ (low, omega (arith, high, total))
            ],
            record {
              idle = region config.initial_blocks size base [];
              chain = chain;
              each = λ x. omega arith;
              once = once;
              null = null;
            },
          ),
      rw any refl,
      refl,
    )
