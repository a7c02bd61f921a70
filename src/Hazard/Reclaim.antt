-- ===== src/Hazard/Reclaim.antt =====
-- What a call of `reclaim` does to the list of its thread.
use cauchy.Prelude.{
  ℕ, ◌+◌, ◌-◌, ◌%◌, ◌<◌, ◌≡◌, ◌≢◌, refl, true, false, List, [], ◌∷◌, ◌==◌, length, arith,
  Bool-cases, inl, inr,
}
use cauchy.Atomic.{u32_mod}
use cauchy.Hazard.{RetiredNode, HazardRecord, HazardDomain, Thread, get_hazard_record, is_hazardous}
use cauchy.Hazard.Retire.{Swept, find_record, call_of, calls_of, sweep, reclaim}
use cauchy.Hazard.Records.{First, First-find, First-write}
use cauchy.Hazard.Protected.{calls_on, calls_on-append}

-- All nodes are hazardous.
abbrev pub AllBusy : HazardDomain → List RetiredNode → Type 0
AllBusy domain [] = Unit
AllBusy domain (node ∷ nodes) = (is_hazardous domain node.ptr ≡ true) × AllBusy domain nodes

-- What the loop leaves of these nodes, behind `extra` nodes that it kept.
record Splits (domain : HazardDomain) (extra : ℕ) (nodes : List RetiredNode) (swept : Swept)
    : Type 0 where
  busy : AllBusy domain swept.kept
  number : swept.reclaimed + length swept.kept ≡ length nodes
  count : swept.count ≡ extra + length swept.kept
  shares :
      (ptr : ℕ)
      → calls_on ptr swept.calls + calls_on ptr (calls_of swept.kept)
        ≡ calls_on ptr (calls_of nodes)

sweep-Splits :
    (domain : HazardDomain) (count extra : ℕ) (nodes : List RetiredNode)
    → count ≡ extra + length nodes
    → count < u32_mod
    → Splits domain extra nodes (sweep domain count nodes)
sweep-Splits domain count extra [] e fits = record {
  busy = tt;
  number = refl;
  count = e;
  shares = λ ptr. refl;
}
sweep-Splits domain count extra (node ∷ nodes) e fits =
    elim (Bool-cases (is_hazardous domain node.ptr)) [
      | inl busy ↦
          let rest = sweep-Splits domain count (extra + 1) nodes (omega (arith, e)) fits in
          let swept = sweep domain count nodes in
          rw busy (record {
            busy = (busy, rest.busy);
            number = omega (arith, rest.number);
            count = omega (arith, rest.count);
            shares = λ ptr. omega (
              arith,
              rest.shares ptr,
              calls_on-append ptr (call_of node) (calls_of swept.kept),
              calls_on-append ptr (call_of node) (calls_of nodes),
            );
          })
      | inr idle ↦
          let count' = (count + u32_mod - 1) % u32_mod in
          let rest =
            sweep-Splits domain count' extra nodes (omega (arith, e, fits)) (omega arith) in
          let swept = sweep domain count' nodes in
          rw idle (record {
            busy = rest.busy;
            number = omega (arith, rest.number);
            count = rest.count;
            shares = λ ptr. omega (
              arith,
              rest.shares ptr,
              calls_on-append ptr (call_of node) swept.calls,
              calls_on-append ptr (call_of node) (calls_of nodes),
            );
          })
    ]

-- The count of a record is the length of its list, and fits 32 bits.
pub record IsCounted (rec : HazardRecord) : Type 0 where
  pub count : rec.retired_count ≡ length rec.retired_list
  pub fits : rec.retired_count < u32_mod

-- A reclamation by a thread with a record splits the list of the record: what it keeps is hazardous,
-- and for every pointer the retire functions that it calls and those of the nodes that it keeps are
-- those of the list, so no node is lost or called twice. The answer is the number of nodes that left
-- the list, and the count of the record stays the length of its list.
pub hazard_reclaims :
    (new : ℕ) (domain : HazardDomain) (thread : Thread)
    → (get_hazard_record new domain thread).rec ≢ 0
    → First IsCounted
        (get_hazard_record new domain thread).rec
        (get_hazard_record new domain thread).domain.records
    → let c = get_hazard_record new domain thread in
      let out = reclaim new domain thread in
      let nodes = (find_record c.rec c.domain.records).retired_list in
      let after = find_record c.rec out.domain.records in
      AllBusy c.domain after.retired_list
      × (out.answer + length after.retired_list ≡ length nodes)
      × (after.retired_count ≡ length after.retired_list)
      × ((ptr : ℕ)
          → calls_on ptr out.calls + calls_on ptr (calls_of after.retired_list)
            ≡ calls_on ptr (calls_of nodes))
unfolding reclaim
hazard_reclaims new domain thread there mine =
    let c = get_hazard_record new domain thread in
    let used : (c.rec == 0) ≡ false = ground arith in
    let rec = find_record c.rec c.domain.records in
    let counted = (First-find IsCounted c.rec c.domain.records mine).1 in
    let swept = sweep c.domain rec.retired_count rec.retired_list in
    let split =
      sweep-Splits c.domain rec.retired_count 0 rec.retired_list (omega (arith, counted.count))
        counted.fits in
    let f : HazardRecord → HazardRecord =
      λ r. record r { retired_list = swept.kept; retired_count = swept.count } in
    let written =
      First-find (λ r. (r.retired_list ≡ swept.kept) × (r.retired_count ≡ swept.count)) c.rec _
        (First-write IsCounted
          (λ r. (r.retired_list ≡ swept.kept) × (r.retired_count ≡ swept.count)) c.rec f
          c.domain.records (λ r. refl) (λ r h. (refl, refl)) mine) in
    rw (used, written.1.0, written.1.1)
      (split.busy, split.number, omega (arith, split.count), split.shares)
