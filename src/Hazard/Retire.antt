-- ===== src/Hazard/Retire.antt =====
-- Retirement and reclamation in src/core/hazard.c.
use cauchy.Prelude.{
  ℕ, ◌+◌, ◌-◌, ◌%◌, ◌*◌, Bool, ◌||◌, not, Option, none, some, List, [], ◌∷◌, ◌++◌, ◌==◌, leb,
  if◌then◌else◌,
}
use cauchy.Atomic.{u32_mod}
use cauchy.Hazard.{
  max_hazard_pointers, max_hazard_threads, RetiredNode, HazardRecord, HazardDomain, Thread, Claim,
  new_record, get_hazard_record, with_record, Outcome, quiet, is_hazardous,
}

-- `if (retire_fn) retire_fn(ptr, ctx)`
abbrev pub call_of : RetiredNode → List (ℕ × ℕ)
call_of node = if node.retire_fn then (node.ptr, node.ctx) ∷ [] else []

-- What the loop of `reclaim` leaves of a list and a count.
pub record Swept : Type 0 where
  pub kept : List RetiredNode
  pub count : ℕ
  pub reclaimed : ℕ
  pub calls : List (ℕ × ℕ)

-- The loop of `reclaim`. A retire function does not use the domain.
abbrev pub sweep : HazardDomain → ℕ → List RetiredNode → Swept
sweep domain count [] = record { kept = []; count = count; reclaimed = 0; calls = [] }
sweep domain count (node ∷ nodes) =
    let busy = is_hazardous domain node.ptr in
    let rest = sweep domain (if busy then count else (count + u32_mod - 1) % u32_mod) nodes in
    if not busy
    then record rest { reclaimed = rest.reclaimed + 1; calls = call_of node ++ rest.calls }
    else record rest { kept = node ∷ rest.kept }

abbrev pub find_record : ℕ → List HazardRecord → HazardRecord
find_record address [] = new_record 0
find_record address (rec ∷ records) =
    let rest = find_record address records in if rec.address == address then rec else rest

abbrev pub reclaim_with : Claim → Outcome
reclaim_with c =
    let rec = find_record c.rec c.domain.records in
    let swept = sweep c.domain rec.retired_count rec.retired_list in
    if c.rec == 0 then quiet 0 c.domain c.thread else record {
      answer = swept.reclaimed;
      domain =
          with_record c.rec
            (λ r. record r { retired_list = swept.kept; retired_count = swept.count }) c.domain;
      thread = c.thread;
      calls = swept.calls;
    }

unfoldable pub reclaim : ℕ → HazardDomain → Thread → Outcome
reclaim new domain thread = reclaim_with (get_hazard_record new domain thread)

-- `rn` in front of the list of the record
abbrev pub push_retired : RetiredNode → HazardRecord → HazardRecord
push_retired node rec = record rec {
  retired_list = node ∷ rec.retired_list;
  retired_count = (rec.retired_count + 1) % u32_mod;
}

-- With a node in the list: the answer of `reclaim` is dropped.
unfoldable pub retire_listed : ℕ → Claim → RetiredNode → Outcome
retire_listed new c node =
    let domain' = with_record c.rec (push_retired node) c.domain in
    let full =
      leb (max_hazard_threads * max_hazard_pointers * 2)
        (find_record c.rec domain'.records).retired_count in
    if full then record (reclaim new domain' c.thread) { answer = 0 } else quiet 0 domain' c.thread

-- `node_here` says whether the pool had a node.
unfoldable pub retire : ℕ → Bool → HazardDomain → Thread → RetiredNode → Outcome
retire new node_here domain thread node =
    let c = get_hazard_record new domain thread in
    if node.ptr == 0
    then quiet 0 domain thread
    else if c.rec == 0 || not node_here
    then record (quiet 0 c.domain c.thread) { calls = call_of node }
    else retire_listed new c node

-- `cauchy_hazard_domain_create`, at the address that `cauchy_aligned_alloc` answers. A pool that was
-- not created is not noticed.
unfoldable pub domain_create : ℕ → Option HazardDomain
domain_create address =
    if address == 0
    then none
    else some (record { address = address; records = []; record_count = 0 })

abbrev pub calls_of : List RetiredNode → List (ℕ × ℕ)
calls_of [] = []
calls_of (node ∷ nodes) = call_of node ++ calls_of nodes

-- The calls that `destroy` makes.
unfoldable pub domain_destroy : List HazardRecord → List (ℕ × ℕ)
domain_destroy [] = []
domain_destroy (rec ∷ records) = calls_of rec.retired_list ++ domain_destroy records
