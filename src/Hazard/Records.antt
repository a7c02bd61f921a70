-- ===== src/Hazard/Records.antt =====
-- The list of records: which record an address finds after a call.
use mathlib.Core.Option
use cauchy.Prelude.{
  ℕ, zero, suc, ◌<◌, ◌≡◌, ◌≢◌, sym, ◌∙◌, true, false, ◌&&◌, not, Option, none, some, List, [], ◌∷◌,
  ◌==◌, length, get_or, arith, Bool-cases, inl, inr, ==_iff,
}
use cauchy.Hazard.{
  HazardRecord, HazardDomain, Thread, claim_inactive, claimed, new_record, get_hazard_record,
  update, holds, hazardous_in,
}
use cauchy.Hazard.Retire.{find_record}

-- The same for one record.
pub record Holds (rec : HazardRecord) (i ptr : ℕ) : Type 0 where
  pub active : rec.active ≡ true
  pub small : i < length rec.hazards
  pub slot : get_or rec.hazards i 0 ≡ ptr

-- Some record with this address has the property, and it is the first one.
pub data First (P : HazardRecord → Type 0) (address : ℕ) : List HazardRecord → Type 0 where
  here :
      (rec : HazardRecord) (records : List HazardRecord)
      → rec.address ≡ address
      → P rec
      → First P address (rec ∷ records)
  later :
      (rec : HazardRecord) (records : List HazardRecord)
      → rec.address ≢ address
      → First P address records
      → First P address (rec ∷ records)

holds_slot :
    (ptr i : ℕ) (hazards : List ℕ)
    → i < length hazards
    → get_or hazards i 0 ≡ ptr
    → holds ptr hazards ≡ true
holds_slot ptr i [] small e = absurd (omega arith)
holds_slot ptr zero (h ∷ hazards) small e = ground arith
holds_slot ptr (suc i) (h ∷ hazards) small e =
    ground (arith, holds_slot ptr i hazards (omega arith) e)

pub First-hazardous :
    (ptr i address : ℕ) (records : List HazardRecord)
    → First (λ r. Holds r i ptr) address records
    → hazardous_in ptr records ≡ true
First-hazardous ptr i address records (here rec rest e h) =
    ground (arith, holds_slot ptr i rec.hazards h.small h.slot, h.active)
First-hazardous ptr i address records (later rec rest other first) =
    ground (arith, First-hazardous ptr i address rest first)

module _ (P : HazardRecord → Type 0) (address : ℕ) where
  -- A write to a record that keeps its address, and the property where it is this record.
  pub First-update :
      (target : ℕ) (f : HazardRecord → HazardRecord) (records : List HazardRecord)
      → ((rec : HazardRecord) → (f rec).address ≡ rec.address)
      → (target ≡ address → (rec : HazardRecord) → P rec → P (f rec))
      → First P address records
      → First P address (update target f records)
  First-update target f records keeps good (here rec rest e h) =
      elim (Bool-cases (rec.address == target)) [
        | inl hit ↦
            let same = sym ((==_iff rec.address target).0 hit) ∙ e in
            simp hit (here (f rec) rest (keeps rec ∙ e) (good same rec h))
        | inr miss ↦ simp miss (here rec (update target f rest) e h)
      ]
  First-update target f records keeps good (later rec rest other first) =
      elim (Bool-cases (rec.address == target)) [
        | inl hit ↦ simp hit (later (f rec) rest (λ e. other (sym (keeps rec) ∙ e)) first)
        | inr miss ↦
            simp miss
              (later rec (update target f rest) other (First-update target f rest keeps good first))
      ]

  pub First-find :
      (records : List HazardRecord)
      → First P address records
      → ((find_record address records).address ≡ address) × P (find_record address records)
  First-find records (here rec rest e h) =
      let hit : (rec.address == address) ≡ true = (==_iff rec.address address).1 e in
      simp hit (e, h)
  First-find records (later rec rest other first) =
      let miss : (rec.address == address) ≡ false = ground arith in
      simp miss (First-find rest first)

-- A write to this very record.
pub First-write :
    (P Q : HazardRecord → Type 0) (address : ℕ) (f : HazardRecord → HazardRecord)
    (records : List HazardRecord)
    → ((rec : HazardRecord) → (f rec).address ≡ rec.address)
    → ((rec : HazardRecord) → P rec → Q (f rec))
    → First P address records
    → First Q address (update address f records)
First-write P Q address f records keeps good (here rec rest e h) =
    let hit : (rec.address == address) ≡ true = (==_iff rec.address address).1 e in
    simp hit (here (f rec) rest (keeps rec ∙ e) (good rec h))
First-write P Q address f records keeps good (later rec rest other first) =
    let miss : (rec.address == address) ≡ false = ground arith in
    simp miss
      (later rec (update address f rest) other (First-write P Q address f rest keeps good first))

-- Claiming a record does not take one that is active.
module _ (i ptr address : ℕ) where
  abbrev Held : List HazardRecord → Type 0
  Held = First (λ r. Holds r i ptr) address

  abbrev Kept : Option (ℕ × List HazardRecord) → Type 0
  Kept none = Unit
  Kept (some r) = Held r.1

  Kept-here :
      (rec : HazardRecord) (o : Option (ℕ × List HazardRecord))
      → rec.address ≡ address
      → Holds rec i ptr
      → Kept (Option.map (λ r. (r.0, rec ∷ r.1)) o)
  Kept-here rec none e h = tt
  Kept-here rec (some r) e h = here rec r.1 e h

  Kept-later :
      (rec : HazardRecord) (o : Option (ℕ × List HazardRecord))
      → rec.address ≢ address
      → Kept o
      → Kept (Option.map (λ r. (r.0, rec ∷ r.1)) o)
  Kept-later rec none other kept = tt
  Kept-later rec (some r) other kept = later rec r.1 other kept

  claim_inactive-Kept : (records : List HazardRecord) → Held records → Kept (claim_inactive records)
  claim_inactive-Kept records (here rec rest e h) =
      simp h.active (Kept-here rec (claim_inactive rest) e h)
  claim_inactive-Kept records (later rec rest other held) = elim (Bool-cases rec.active) [
    | inl active ↦
        simp active (Kept-later rec (claim_inactive rest) other (claim_inactive-Kept rest held))
    | inr free ↦ simp free (later (record rec { active = true }) rest other held)
  ]

  pub get_hazard_record-Held :
      (new : ℕ) (domain : HazardDomain) (thread : Thread)
      → new ≢ address
      → Held domain.records
      → Held (get_hazard_record new domain thread).domain.records
  unfolding get_hazard_record
  get_hazard_record-Held new domain thread apart held =
      elim (Bool-cases (thread.domain == domain.address && not (thread.hazard_record == 0))) [
        | inl mine ↦ rw mine held
        | inr other ↦
            rw other (go (claim_inactive domain.records) (claim_inactive-Kept domain.records held))
      ]
    where
      go :
          (o : Option (ℕ × List HazardRecord))
          → Kept o
          → Held (claimed new domain thread o).domain.records
      go (some r) kept = kept
      go none kept = elim (Bool-cases (new == 0)) [
        | inl failed ↦ rw failed held
        | inr made ↦ rw made (later (new_record new) domain.records apart held)
      ]
