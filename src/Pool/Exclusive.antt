-- ===== src/Pool/Exclusive.antt =====
-- Who holds the blocks of a pool, call after call.
use mathlib.Core.Option.{some-injective}
use cauchy.Prelude.{
  ℕ, suc, ◌+◌, ◌<◌, ◌≡◌, ◌≢◌, refl, sym, ap, ◌∙◌, subst, false, some, List, [], ◌∷◌, ◌==◌,
  if◌then◌else◌, arith, ==_refl,
}
use cauchy.Pool.{Memory, write, Pool, alloc, free}
use cauchy.Pool.Blocks.{
  IsChain, copies, without, copies-without, IsChain-write, taken, grown, put, alloc-taken,
  alloc-grown, free-put,
}
use cauchy.Pool.States.{
  State, lend, known, Step, take, give, fill, Reach, start, next, IsSound, one_of, copies-lend,
  copies-known_new, copies-known_old, known_once, known_null,
}

-- What an allocation comes to in a sound state, with any fuel but none.
data Outcome (s : State) (fuel new_block : ℕ) : Type 0 where
  reused :
      (block : ℕ) (rest : List ℕ)
      → block ≢ 0
      → IsChain s.memory (s.memory block) rest
      → ((x : ℕ) → copies x (block ∷ rest) + copies x s.lent ≡ copies x s.blocks)
      → alloc fuel new_block s.memory s.pool ≡ some (block, taken s.memory s.pool)
      → (taken s.memory s.pool).free_list ≡ s.memory block
      → Outcome s fuel new_block
  asked :
      s.pool.free_list ≡ 0
      → ((x : ℕ) → copies x s.lent ≡ copies x s.blocks)
      → alloc fuel new_block s.memory s.pool ≡ some (new_block, grown new_block s.pool)
      → Outcome s fuel new_block

alloc-Outcome : (s : State) (fuel new_block : ℕ) → IsSound s → Outcome s (suc fuel) new_block
alloc-Outcome s fuel new_block sound = go sound.idle sound.chain sound.each
  where
    go :
        (idle : List ℕ)
        → IsChain s.memory s.pool.free_list idle
        → ((x : ℕ) → copies x idle + copies x s.lent ≡ copies x s.blocks)
        → Outcome s (suc fuel) new_block
    go [] chain each =
        asked chain (λ x. omega (arith, each x)) (alloc-grown fuel new_block s.memory s.pool chain)
    go (b ∷ rest) (here, there, chain) each =
        reused b rest there chain each
          (alloc-taken fuel new_block s.memory s.pool (λ e. there (sym here ∙ e))
            ∙ ap (λ x. some (x, taken s.memory s.pool)) here)
          (ap s.memory here)

known-IsSound :
    (s : State) (block : ℕ) (pool : Pool) (idle : List ℕ)
    → IsSound s
    → IsChain s.memory pool.free_list idle
    → ((x : ℕ) → copies x idle + copies x (lend block s.lent) ≡ copies x (known block s.blocks))
    → IsSound (record s { pool = pool; lent = lend block s.lent; blocks = known block s.blocks })
known-IsSound s block pool idle sound chain each = record {
  idle = idle;
  chain = chain;
  each = each;
  once = λ x. known_once block x s.blocks sound.once;
  null = known_null block s.blocks sound.null;
}

module _ (s : State) (sound : IsSound s) (block : ℕ) (rest : List ℕ) (there : block ≢ 0)
    (each : (x : ℕ) → copies x (block ∷ rest) + copies x s.lent ≡ copies x s.blocks) where
  head_once : copies block s.blocks ≡ 1
  head_once =
      let this : (1 + copies block rest) + copies block s.lent ≡ copies block s.blocks =
        rw (==_refl block) at (each block) in
      omega (arith, sound.once block, this)

  head_free : copies block s.lent ≡ 0
  head_free =
      let this : (1 + copies block rest) + copies block s.lent ≡ copies block s.blocks =
        rw (==_refl block) at (each block) in
      omega (arith, sound.once block, this)

  head_moves :
      (x : ℕ) → copies x rest + copies x (lend block s.lent) ≡ copies x (known block s.blocks)
  head_moves x =
      let used : (block == 0) ≡ false = ground arith in
      let sum = copies-lend block x s.lent in
      let old = copies-known_old block x s.blocks (omega (arith, head_once)) in
      let one : one_of block x ≡ (if block == x then 1 else 0) = rw used refl in
      omega (arith, sum, old, one, each x)

-- What an allocation leaves is sound again, and the block was neither NULL, unless the allocator
-- said so, nor lent.
take-IsSound :
    (s : State) (fuel new_block : ℕ)
    → IsSound s
    → copies new_block s.blocks ≡ 0
    → (block : ℕ) × (pool : Pool) × (alloc (suc fuel) new_block s.memory s.pool
        ≡ some (block, pool))
      × IsSound (record s { pool = pool; lent = lend block s.lent; blocks = known block s.blocks })
      × (copies block s.lent ≡ 0)
      × (block ≡ 0 → new_block ≡ 0)
take-IsSound s fuel new_block sound fresh = elim (alloc-Outcome s fuel new_block sound) [
  | reused b rest there chain each run head ↦ (
    b,
    taken s.memory s.pool,
    run,
    known-IsSound s b (taken s.memory s.pool) rest sound
        (subst (λ h. IsChain s.memory h rest) (sym head) chain)
        (head_moves s sound b rest there each),
    head_free s sound b rest there each,
    λ e. absurd (there e),
  )
  | asked empty each run ↦ (
    new_block,
    grown new_block s.pool,
    run,
    known-IsSound s new_block (grown new_block s.pool) [] sound empty (λ x. omega (
      arith,
      copies-lend new_block x s.lent,
      copies-known_new new_block x s.blocks fresh,
      each x,
    )),
    omega (arith, each new_block),
    λ e. e,
  )
]

give-IsSound :
    (s : State) (fuel block : ℕ)
    → IsSound s
    → 0 < copies block s.lent
    → (block ≢ 0)
      × IsSound (record s {
        memory = write s.memory block s.pool.free_list;
        pool = put s.pool block;
        lent = without block s.lent;
      })
give-IsSound s fuel block sound held =
    let there : block ≢ 0 = λ e.
      absurd (omega (arith, sound.each 0, sound.null, subst (λ b. 0 < copies b s.lent) e held)) in
    let unlisted : copies block sound.idle ≡ 0 =
      omega (arith, sound.each block, sound.once block) in
    (
      there,
      record {
        idle = block ∷ sound.idle;
        chain = (
          refl,
          there,
          rw (==_refl block) (
              IsChain-write s.memory block s.pool.free_list s.pool.free_list sound.idle unlisted
                sound.chain),
        );
        each = λ x. omega (arith, copies-without block x s.lent held, sound.each x);
        once = sound.once;
        null = sound.null;
      },
    )

Step-IsSound : (s t : State) → Step s t → IsSound s → IsSound t
Step-IsSound s t (take fuel new_block block pool fresh run) sound =
    let (block', pool', run', sound', _, _) = take-IsSound s fuel new_block sound fresh in
    subst
      (λ (r : ℕ × Pool).
        IsSound (record s { pool = r.1; lent = lend r.0 s.lent; blocks = known r.0 s.blocks }))
      (some-injective _ _ (sym run' ∙ run)) sound'
Step-IsSound s t (give fuel block memory pool held run) sound =
    let (there, sound') = give-IsSound s fuel block sound held in
    let run' = free-put fuel s.memory s.pool block there in
    subst
      (λ (r : Memory × Pool).
        IsSound (record s { memory = r.0; pool = r.1; lent = without block s.lent }))
      (some-injective _ _ (sym run' ∙ run)) sound'
Step-IsSound s t (fill block word held) sound = record {
  idle = sound.idle;
  chain =
      IsChain-write s.memory block word s.pool.free_list sound.idle
        (omega (arith, sound.each block, sound.once block)) sound.chain;
  each = sound.each;
  once = sound.once;
  null = sound.null;
}

Reach-IsSound : (s t : State) → Reach s t → IsSound s → IsSound t
Reach-IsSound s t start sound = sound
Reach-IsSound s t (next {t = u} reach step) sound =
    Step-IsSound u t step (Reach-IsSound s u reach sound)

-- From a sound state on, calls that follow each other keep the pool sound: the free list ends, and
-- every block that the pool ever had is either free or lent, and is so once. An allocation returns,
-- with a block that is not lent, and with NULL only where the allocator answers NULL.
pub pool_exclusive :
    (s t : State) (fuel new_block : ℕ)
    → IsSound s
    → Reach s t
    → copies new_block t.blocks ≡ 0
    → IsSound t
      × ((block : ℕ) × (pool : Pool) × (alloc (suc fuel) new_block t.memory t.pool
            ≡ some (block, pool))
          × (copies block t.lent ≡ 0)
          × (block ≡ 0 → new_block ≡ 0))
pool_exclusive s t fuel new_block sound reach fresh =
    let now = Reach-IsSound s t reach sound in
    let (block, pool, run, _, unlent, null) = take-IsSound t fuel new_block now fresh in
    (now, (block, pool, run, unlent, null))

-- In a sound state, giving back a block that is lent returns and leaves a sound state, and the next
-- allocation returns this block without asking the allocator.
pub pool_reuses :
    (s : State) (fuel new_block block : ℕ)
    → IsSound s
    → 0 < copies block s.lent
    → (memory : Memory) × (pool : Pool) × (pool' : Pool) × (free (suc fuel) s.memory s.pool block
        ≡ some (memory, pool))
      × IsSound (record s { memory = memory; pool = pool; lent = without block s.lent })
      × (alloc (suc fuel) new_block memory pool ≡ some (block, pool'))
      × (pool'.allocated ≡ s.pool.allocated)
pool_reuses s fuel new_block block sound held =
    let (there, sound') = give-IsSound s fuel block sound held in
    let memory = write s.memory block s.pool.free_list in
    (
      memory,
      put s.pool block,
      taken memory (put s.pool block),
      free-put fuel s.memory s.pool block there,
      sound',
      alloc-taken fuel new_block memory (put s.pool block) there,
      refl,
    )
