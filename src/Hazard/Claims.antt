-- ===== src/Hazard/Claims.antt =====
-- `get_hazard_record` of src/core/hazard.c with threads that run at the same time: a step is one
-- access to memory that other threads see, with what the thread does on its own until the next one.
-- The return at once for a thread that has a record of the domain is no step.
-- Records are never freed while their domain lives, so the allocator does not return one twice.
pub mod Places
pub mod Invariant
pub mod Progress
use cauchy.Prelude.{ℕ, ◌+◌, ◌≡◌, ◌≢◌, Bool, true, false, List, [], ◌∷◌, update}
use cauchy.Atomic.{fetch_add_u32}
use cauchy.Pool.{Memory, write}
use cauchy.Pool.Blocks.{copies}

-- Where a thread is: before the call or without a record; at a record in the loop over the records,
-- 0 at its end; with a record of its own, which nobody else sees; before the compare-and-swap that
-- puts it in front of `head`; and after the call.
pub data Place : Type 0 where
  outside : Place
  scanning : ℕ → Place
  holding : ℕ → Place
  linking : ℕ → ℕ → Place
  owning : ℕ → Place

-- The fields `head` and `record_count` of the domain, the fields `next` and `active` of the records,
-- the addresses of the records that were made, and the threads.
pub record Shared : Type 0 where
  pub head : ℕ
  pub record_count : ℕ
  pub next : Memory
  pub active : ℕ → Bool
  pub made : List ℕ
  pub threads : ℕ → Place

abbrev pub at_place : Shared → ℕ → Place → Shared
at_place s t place = record s { threads = update s.threads t place }

pub data Step (s : Shared) : Shared → Type 0 where
  enter : (t : ℕ) → s.threads t ≡ outside → Step s (at_place s t (scanning s.head))
  lose :
      (t rec : ℕ)
      → s.threads t ≡ scanning rec
      → rec ≢ 0
      → s.active rec ≡ true
      → Step s (at_place s t (scanning (s.next rec)))
  win :
      (t rec : ℕ)
      → s.threads t ≡ scanning rec
      → rec ≢ 0
      → s.active rec ≡ false
      → Step s (record (at_place s t (owning rec)) { active = update s.active rec true })
  fail : (t : ℕ) → s.threads t ≡ scanning 0 → Step s (at_place s t outside)
  make :
      (t rec : ℕ)
      → s.threads t ≡ scanning 0
      → rec ≢ 0
      → copies rec s.made ≡ 0
      → Step s (record (at_place s t (holding rec)) {
        next = write s.next rec 0;
        active = update s.active rec true;
        made = rec ∷ s.made;
      })
  load :
      (t rec : ℕ)
      → s.threads t ≡ holding rec
      → Step s (record (at_place s t (linking rec s.head)) { next = write s.next rec s.head })
  link :
      (t rec old : ℕ)
      → s.threads t ≡ linking rec old
      → s.head ≡ old
      → Step s (record (at_place s t (owning rec)) {
        head = rec;
        record_count = fetch_add_u32 s.record_count 1;
      })
  retry :
      (t rec old : ℕ)
      → s.threads t ≡ linking rec old
      → s.head ≢ old
      → Step s (at_place s t (holding rec))

-- From a domain that was just created, with no thread in the function.
pub data Reach : Shared → Type 0 where
  created :
      (next : Memory) (active : ℕ → Bool)
      → Reach (record {
        head = 0;
        record_count = 0;
        next = next;
        active = active;
        made = [];
        threads = λ t. outside;
      })
  further : {s s' : Shared} → Reach s → Step s s' → Reach s'
