-- ===== src/Hazard.antt =====
-- src/core/hazard.c and the hazard pointers of include/cauchy/memory.h. A thread is known by its
-- two thread-local variables. An address is a number, 0 is NULL; a record is known by its address.
-- The pointer to the domain is not NULL, where every call returns at once.
-- A call returns, besides its answer, the calls of retire functions that it made.
pub mod Retire
pub mod Records
pub mod Protected
pub mod Survival
pub mod Reclaim
pub mod Stale
pub mod Claims
use mathlib.Core.Option
use cauchy.Prelude.{
  ℕ, ◌+◌, ◌-◌, ◌%◌, ◌*◌, Bool, true, false, ◌&&◌, ◌||◌, not, Option, none, some, List, [], ◌∷◌,
  ◌++◌, ◌==◌, ltb, leb, get_or, set, replicate, if◌then◌else◌,
}
use cauchy.Prelude.Int.{ℤ, pos, negsuc}
use cauchy.Atomic.{load, store, u32_mod, fetch_add_u32}

abbrev pub max_hazard_pointers : ℕ
max_hazard_pointers = 4

abbrev pub max_hazard_threads : ℕ
max_hazard_threads = 128

-- `retired_node_t`; `retire_fn` says whether there is a function.
pub record RetiredNode : Type 0 where
  pub ptr : ℕ
  pub retire_fn : Bool
  pub ctx : ℕ

-- `hazard_record_t`, at its address.
pub record HazardRecord : Type 0 where
  pub address : ℕ
  pub hazards : List ℕ
  pub active : Bool
  pub retired_list : List RetiredNode
  pub retired_count : ℕ

-- `struct cauchy_hazard_domain`, at its address, with the records from `head` on.
pub record HazardDomain : Type 0 where
  pub address : ℕ
  pub records : List HazardRecord
  pub record_count : ℕ

-- `tls_domain` and `tls_hazard_record` of a thread
pub record Thread : Type 0 where
  pub domain : ℕ
  pub hazard_record : ℕ

-- The record that a call works with, 0 without memory, and the states after it.
pub record Claim : Type 0 where
  pub rec : ℕ
  pub domain : HazardDomain
  pub thread : Thread

-- The first record that is not active, by the compare-and-swap on its flag.
abbrev pub claim_inactive : List HazardRecord → Option (ℕ × List HazardRecord)
claim_inactive [] = none
claim_inactive (rec ∷ records) =
    let rest = claim_inactive records in
    if not rec.active
    then some (rec.address, record rec { active = true } ∷ records)
    else Option.map (λ r. (r.0, rec ∷ r.1)) rest

-- After `memset`, active.
abbrev pub new_record : ℕ → HazardRecord
new_record address = record {
  address = address;
  hazards = replicate max_hazard_pointers 0;
  active = true;
  retired_list = [];
  retired_count = 0;
}

-- The rest of `get_hazard_record`, after its loop over the records.
abbrev pub claimed : ℕ → HazardDomain → Thread → Option (ℕ × List HazardRecord) → Claim
claimed new domain thread (some (rec, records)) = record {
  rec = rec;
  domain = record domain { records = records };
  thread = record { domain = domain.address; hazard_record = rec };
}
claimed new domain thread none =
    if new == 0 then record { rec = 0; domain = domain; thread = thread } else record {
      rec = new;
      domain = record domain {
        records = new_record new ∷ domain.records;
        record_count = fetch_add_u32 domain.record_count 1;
      };
      thread = record { domain = domain.address; hazard_record = new };
    }

-- `new` is what `cauchy_aligned_alloc` answers.
unfoldable pub get_hazard_record : ℕ → HazardDomain → Thread → Claim
get_hazard_record new domain thread =
    if thread.domain == domain.address && not (thread.hazard_record == 0)
    then record { rec = thread.hazard_record; domain = domain; thread = thread }
    else claimed new domain thread (claim_inactive domain.records)

-- A write through a pointer to a record.
abbrev pub update : ℕ → (HazardRecord → HazardRecord) → List HazardRecord → List HazardRecord
update address f [] = []
update address f (rec ∷ records) =
    let rest = update address f records in
    if rec.address == address then f rec ∷ records else rec ∷ rest

abbrev pub with_record : ℕ → (HazardRecord → HazardRecord) → HazardDomain → HazardDomain
with_record address f domain = record domain { records = update address f domain.records }

-- `cauchy_atomic_store_ptr(&rec->hazards[i], ptr)`
abbrev pub set_hazard : ℕ → ℕ → HazardRecord → HazardRecord
set_hazard i ptr rec = record rec { hazards = set rec.hazards i ptr }

-- The index, unless it is refused.
abbrev pub slot : ℤ → Option ℕ
slot (pos i) = if leb max_hazard_pointers i then none else some i
slot (negsuc i) = none

-- What a call leaves, with its answer, a pointer or a number, and the calls of retire functions.
pub record Outcome : Type 0 where
  pub answer : ℕ
  pub domain : HazardDomain
  pub thread : Thread
  pub calls : List (ℕ × ℕ)

abbrev pub quiet : ℕ → HazardDomain → Thread → Outcome
quiet answer domain thread = record {
  answer = answer;
  domain = domain;
  thread = thread;
  calls = [];
}

-- What the two loads of a round of `protect` read. Other threads write to `*pptr`, so this is an
-- argument; the second load comes after the store to the slot, so it may depend on what the domain
-- holds when it is made.
abbrev pub Round : Type 0
Round = ℕ × (HazardDomain → ℕ)

-- The loop of `protect`; `none` while no round has read the same pointer twice.
abbrev pub announce : List Round → ℕ → ℕ → HazardDomain → Option (ℕ × HazardDomain)
announce [] rec i domain = none
announce ((ptr, again) ∷ rounds) rec i domain =
    let domain' = with_record rec (set_hazard i (store 0 ptr)) domain in
    let rest = announce rounds rec i domain' in
    if ptr == again domain' then some (ptr, domain') else rest

-- `protect`, with the index that was accepted.
abbrev pub protect_at : ℕ → List Round → HazardDomain → Thread → Option ℕ → Option Outcome
protect_at new rounds domain thread none = some (quiet 0 domain thread)
protect_at new rounds domain thread (some i) =
    let c = get_hazard_record new domain thread in
    if c.rec == 0
    then some (quiet 0 c.domain c.thread)
    else Option.map (λ r. quiet r.0 r.1 c.thread) (announce rounds c.rec i c.domain)

unfoldable pub protect : ℕ → List Round → HazardDomain → Thread → ℤ → Option Outcome
protect new rounds domain thread hp_index = protect_at new rounds domain thread (slot hp_index)

-- `clear`, with the index that was accepted.
abbrev pub clear_at : ℕ → HazardDomain → Thread → Option ℕ → Outcome
clear_at new domain thread none = quiet 0 domain thread
clear_at new domain thread (some i) =
    let c = get_hazard_record new domain thread in
    if c.rec == 0
    then quiet 0 c.domain c.thread
    else quiet 0 (with_record c.rec (set_hazard i 0) c.domain) c.thread

unfoldable pub clear : ℕ → HazardDomain → Thread → ℤ → Outcome
clear new domain thread hp_index = clear_at new domain thread (slot hp_index)

-- The loop over the slots of a record.
abbrev pub holds : ℕ → List ℕ → Bool
holds ptr [] = false
holds ptr (hazard ∷ hazards) = load hazard == ptr || holds ptr hazards

abbrev pub hazardous_in : ℕ → List HazardRecord → Bool
hazardous_in ptr [] = false
hazardous_in ptr (rec ∷ records) = (rec.active && holds ptr rec.hazards) || hazardous_in ptr records

abbrev pub is_hazardous : HazardDomain → ℕ → Bool
is_hazardous domain ptr = hazardous_in ptr domain.records
