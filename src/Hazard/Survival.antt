-- ===== src/Hazard/Survival.antt =====
-- Histories of calls by all threads, with a pointer that one of them protects.
use mathlib.Core.List.{Memᴰ}
use cauchy.Prelude.{
  ℕ, ◌<◌, ◌≡◌, ◌≢◌, refl, sym, ap, ◌∙◌, true, false, some, List, [], ◌∷◌, ◌++◌, ◌==◌, leb, length,
  get_or-set, length-set, arith, Bool-cases, inl, inr, ==_refl, ==_iff,
}
use cauchy.Prelude.Int.{ℤ, pos}
use cauchy.Hazard.{
  RetiredNode, HazardRecord, HazardDomain, Thread, Outcome, Round, get_hazard_record, slot,
  announce, set_hazard, with_record, protect, clear, quiet,
}
use cauchy.Hazard.Retire.{reclaim, retire}
use cauchy.Hazard.Records.{Holds, First, First-write}
use cauchy.Hazard.Protected.{
  calls_on, calls_on-append, IsProtected, reclaim-IsProtected, retire-IsProtected,
  protect_at-IsProtected, clear_at-IsProtected,
}

-- One call by some thread, and the calls of retire functions in it. The record at `address` is left
-- alone by `protect` and `clear`, and the allocator does not hand it out again. A retirement has
-- memory.
pub data Act (address : ℕ) (domain : HazardDomain) : HazardDomain → List (ℕ × ℕ) → Type 0 where
  reclaims :
      (new : ℕ) (thread : Thread)
      → new ≢ address
      → Act address domain (reclaim new domain thread).domain (reclaim new domain thread).calls
  retires :
      (new : ℕ) (thread : Thread) (node : RetiredNode)
      → new ≢ address
      → (get_hazard_record new domain thread).rec ≢ 0
      → Act address domain
          (retire new true domain thread node).domain
          (retire new true domain thread node).calls
  protects :
      (new : ℕ) (rounds : List Round) (thread : Thread) (hp_index : ℤ) (out : Outcome)
      → new ≢ address
      → (get_hazard_record new domain thread).rec ≢ address
      → protect new rounds domain thread hp_index ≡ some out
      → Act address domain out.domain out.calls
  clears :
      (new : ℕ) (thread : Thread) (hp_index : ℤ)
      → new ≢ address
      → (get_hazard_record new domain thread).rec ≢ address
      → Act address domain
          (clear new domain thread hp_index).domain
          (clear new domain thread hp_index).calls

pub data Acts (address : ℕ) (domain : HazardDomain) : HazardDomain → List (ℕ × ℕ) → Type 0 where
  start : Acts address domain domain []
  next :
      {between after : HazardDomain} {calls more : List (ℕ × ℕ)}
      → Acts address domain between calls
      → Act address between after more
      → Acts address domain after (calls ++ more)

Act-IsProtected :
    (address i ptr : ℕ) (domain after : HazardDomain) (calls : List (ℕ × ℕ))
    → Act address domain after calls
    → IsProtected address i ptr domain
    → IsProtected address i ptr after × (calls_on ptr calls ≡ 0)
unfolding protect clear
Act-IsProtected address i ptr domain after calls (reclaims new thread apart) held =
    reclaim-IsProtected address i ptr new domain thread apart held
Act-IsProtected address i ptr domain after calls (retires new thread node apart there) held =
    retire-IsProtected address i ptr new domain thread node apart there held
Act-IsProtected address i ptr domain after calls
      (protects new rounds thread hp_index out apart other run) held =
    protect_at-IsProtected address i ptr new rounds domain thread (slot hp_index) out apart other
      run held
Act-IsProtected address i ptr domain after calls (clears new thread hp_index apart other) held =
    clear_at-IsProtected address i ptr new domain thread (slot hp_index) apart other held

-- As long as a pointer stands in a slot of an active record, no history of reclamations, of
-- retirements with memory, also of this pointer, and of what other records are used for calls a
-- retire function on it, and it stands there afterwards.
pub hazard_survives :
    (address i ptr : ℕ) (domain after : HazardDomain) (calls : List (ℕ × ℕ))
    → IsProtected address i ptr domain
    → Acts address domain after calls
    → IsProtected address i ptr after × (calls_on ptr calls ≡ 0)
hazard_survives address i ptr domain after calls held start = (held, refl)
hazard_survives address i ptr domain after calls held
      (next {between} {after = after'} {calls = calls'} {more} acts act) =
    let (now, none_before) = hazard_survives address i ptr domain between calls' held acts in
    let (still, none_here) = Act-IsProtected address i ptr between after' more act now in
    (still, calls_on-append ptr calls' more ∙ omega (arith, none_before, none_here))

-- A record in use: active, with all its slots.
pub record IsInUse (rec : HazardRecord) : Type 0 where
  pub active : rec.active ≡ true
  pub slots : length rec.hazards ≡ 4

announced : (r : HazardRecord) (i q : ℕ) → i < 4 → IsInUse r → Holds (set_hazard i q r) i q
announced r i q small h =
    let wide : i < length r.hazards = omega (arith, h.slots) in
    record {
      active = h.active;
      small = omega (arith, wide, length-set r.hazards i q);
      slot = get_or-set r.hazards i i q 0 wide ∙ rw (==_refl i) refl;
    }

-- A round that reads `p` twice, whatever the domain holds then.
abbrev pub IsStable : ℕ → List Round → Type 0
IsStable p rounds =
    (again : HazardDomain → ℕ) × Memᴰ (p, again) rounds × ((d : HazardDomain) → again d ≡ p)

not_first :
    (p q : ℕ) (again : HazardDomain → ℕ) (rounds : List Round) (d : HazardDomain)
    → (q == again d) ≡ false
    → IsStable p ((q, again) ∷ rounds)
    → IsStable p rounds
not_first p q again rounds d changed (stable, Memᴰ.head e, same) =
    absurd (ground (arith, ap (λ (r : Round). r.0) e, ap (λ (r : Round). r.1 d) e, same d, changed))
not_first p q again rounds d changed (stable, Memᴰ.tail t, same) = (stable, t, same)

announce-IsProtected_after :
    (rounds : List Round) (rec i p : ℕ) (domain : HazardDomain)
    → i < 4
    → First IsInUse rec domain.records
    → IsStable p rounds
    → (got : ℕ) × (after : HazardDomain) × (again : HazardDomain → ℕ) × (announce rounds rec i
          domain
        ≡ some (got, after))
      × Memᴰ (got, again) rounds
      × (again after ≡ got)
      × IsProtected rec i got after
announce-IsProtected_after [] rec i p domain small mine (again, member, same) = elim member [ ]
announce-IsProtected_after ((q, again) ∷ rounds) rec i p domain small mine stable =
    let domain' = with_record rec (set_hazard i q) domain in
    elim (Bool-cases (q == again domain')) [
      | inl same ↦ (
        q,
        domain',
        again,
        rw same refl,
        Memᴰ.head refl,
        sym ((==_iff q (again domain')).0 same),
        First-write IsInUse (λ r. Holds r i q) rec (set_hazard i q) domain.records (λ r. refl)
            (λ r h. announced r i q small h) mine,
      )
      | inr changed ↦
          let (got, after, last, run, there, same, held) =
            announce-IsProtected_after rounds rec i p domain' small
              (First-write IsInUse IsInUse rec (set_hazard i q) domain.records (λ r. refl)
                (λ r h. record { active = h.active; slots = length-set r.hazards i q ∙ h.slots })
                mine)
              (not_first p q again rounds domain' changed stable) in
          (got, after, last, rw changed run, Memᴰ.tail there, same, held)
    ]

-- A call of `protect` for one of the four slots, by a thread that gets a record, which is in use in
-- the list, returns once one of its rounds reads a pointer twice, whatever the domain holds then. It
-- returns a pointer that some round read by its first load, and by its second one in the domain that
-- the call leaves, where the pointer stands in the slot: so the second load came after the store. No
-- retire function is called.
pub hazard_protects :
    (new : ℕ) (rounds : List Round) (domain : HazardDomain) (thread : Thread) (i p : ℕ)
    → i < 4
    → (get_hazard_record new domain thread).rec ≢ 0
    → First IsInUse
        (get_hazard_record new domain thread).rec
        (get_hazard_record new domain thread).domain.records
    → IsStable p rounds
    → (out : Outcome) × (again : HazardDomain → ℕ) × (protect new rounds domain thread (pos i)
        ≡ some out)
      × Memᴰ (out.answer, again) rounds
      × (again out.domain ≡ out.answer)
      × IsProtected (get_hazard_record new domain thread).rec i out.answer out.domain
      × (out.calls ≡ [])
unfolding protect
hazard_protects new rounds domain thread i p small there mine stable =
    let c = get_hazard_record new domain thread in
    let used : (c.rec == 0) ≡ false = ground arith in
    let accepted : leb 4 i ≡ false = ground arith in
    let (got, after, again, run, read, same, held) =
      announce-IsProtected_after rounds c.rec i p c.domain small mine stable in
    (quiet got after c.thread, again, rw (accepted, used, run) refl, read, same, held, refl)
