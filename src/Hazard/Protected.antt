-- ===== src/Hazard/Protected.antt =====
-- A pointer in a slot of an active record, and the calls of the threads.
use mathlib.Core.Option.{none-ne-some, some-injective}
use cauchy.Prelude.{
  ℕ, ◌+◌, ◌-◌, ◌*◌, ◌%◌, ◌≡◌, ◌≢◌, refl, ap, ◌∙◌, subst, true, false, Option, none, some, List, [],
  ◌∷◌, ◌++◌, ◌==◌, leb, if◌then◌else◌, arith, Bool-cases, Option-cases, inl, inr,
}
use cauchy.Atomic.{u32_mod}
use cauchy.Hazard.{
  Round, protect_at, clear_at, set_hazard, announce, quiet, RetiredNode, HazardDomain, Thread,
  Outcome, get_hazard_record, with_record, is_hazardous, max_hazard_threads, max_hazard_pointers,
}
use cauchy.Hazard.Retire.{find_record, call_of, sweep, reclaim, push_retired, retire_listed, retire}
use cauchy.Hazard.Records.{Holds, First, First-hazardous, First-update, get_hazard_record-Held}

-- How many calls are of this pointer.
abbrev pub calls_on : ℕ → List (ℕ × ℕ) → ℕ
calls_on ptr [] = 0
calls_on ptr ((p, ctx) ∷ calls) = (if p == ptr then 1 else 0) + calls_on ptr calls

pub calls_on-append :
    (ptr : ℕ) (xs ys : List (ℕ × ℕ)) → calls_on ptr (xs ++ ys) ≡ calls_on ptr xs + calls_on ptr ys
calls_on-append ptr [] ys = omega arith
calls_on-append ptr (x ∷ xs) ys = omega (arith, calls_on-append ptr xs ys)

calls_on-call_of : (ptr : ℕ) (node : RetiredNode) → node.ptr ≢ ptr → calls_on ptr (call_of node) ≡ 0
calls_on-call_of ptr node other = ground arith

-- The loop calls nothing on a pointer that is hazardous.
sweep-hazardous :
    (domain : HazardDomain) (ptr count : ℕ) (nodes : List RetiredNode)
    → is_hazardous domain ptr ≡ true
    → calls_on ptr (sweep domain count nodes).calls ≡ 0
sweep-hazardous domain ptr count [] busy = refl
sweep-hazardous domain ptr count (node ∷ nodes) busy =
    elim (Bool-cases (is_hazardous domain node.ptr)) [
      | inl kept ↦ rw kept (sweep-hazardous domain ptr count nodes busy)
      | inr gone ↦
          let other : node.ptr ≢ ptr = λ e. absurd (ground (arith, ap (is_hazardous domain) e)) in
          rw gone (
            let count' = (count + u32_mod - 1) % u32_mod in
            calls_on-append ptr (call_of node) (sweep domain count' nodes).calls
            ∙ omega (
              arith,
              calls_on-call_of ptr node other,
              sweep-hazardous domain ptr count' nodes busy,
            ))
    ]

module _ (address i ptr : ℕ) where
  -- The first record at this address is active and has the pointer in its slot.
  abbrev pub IsProtected : HazardDomain → Type 0
  IsProtected domain = First (λ r. Holds r i ptr) address domain.records

  pub reclaim-IsProtected :
      (new : ℕ) (domain : HazardDomain) (thread : Thread)
      → new ≢ address
      → IsProtected domain
      → IsProtected (reclaim new domain thread).domain
        × (calls_on ptr (reclaim new domain thread).calls ≡ 0)
  unfolding reclaim
  reclaim-IsProtected new domain thread apart held =
      let c = get_hazard_record new domain thread in
      let now = get_hazard_record-Held i ptr address new domain thread apart held in
      elim (Bool-cases (c.rec == 0)) [
        | inl none_there ↦ rw none_there (now, refl)
        | inr there ↦ rw there (
          First-update (λ r. Holds r i ptr) address c.rec _ c.domain.records (λ r. refl)
              (λ e r h. record { active = h.active; small = h.small; slot = h.slot }) now,
          sweep-hazardous c.domain ptr _ _ (First-hazardous ptr i address c.domain.records now),
        )
      ]

  pub retire-IsProtected :
      (new : ℕ) (domain : HazardDomain) (thread : Thread) (node : RetiredNode)
      → new ≢ address
      → (get_hazard_record new domain thread).rec ≢ 0
      → IsProtected domain
      → IsProtected (retire new true domain thread node).domain
        × (calls_on ptr (retire new true domain thread node).calls ≡ 0)
  unfolding retire retire_listed
  retire-IsProtected new domain thread node apart there held =
      let c = get_hazard_record new domain thread in
      let now = get_hazard_record-Held i ptr address new domain thread apart held in
      let listed = with_record c.rec (push_retired node) c.domain in
      let still =
        First-update (λ r. Holds r i ptr) address c.rec (push_retired node) c.domain.records
          (λ r. refl) (λ e r h. record { active = h.active; small = h.small; slot = h.slot }) now in
      let used : (c.rec == 0) ≡ false = ground arith in
      elim (Bool-cases (node.ptr == 0)) [
        | inl nothing ↦ rw nothing (held, refl)
        | inr some_node ↦
            elim (Bool-cases (
              leb (max_hazard_threads * max_hazard_pointers * 2)
                (find_record c.rec listed.records).retired_count)) [
                  | inl full ↦
                      rw (some_node, used, full)
                        (reclaim-IsProtected new listed c.thread apart still)
                  | inr room ↦ rw (some_node, used, room) (still, refl)
                ]
      ]

  announce-IsProtected :
      (rounds : List Round) (rec j got : ℕ) (domain after : HazardDomain)
      → rec ≢ address
      → announce rounds rec j domain ≡ some (got, after)
      → IsProtected domain
      → IsProtected after
  announce-IsProtected [] rec j got domain after other run held = absurd (none-ne-some _ run)
  announce-IsProtected ((p, again) ∷ rounds) rec j got domain after other run held =
      let still =
        First-update (λ r. Holds r i ptr) address rec (set_hazard j p) domain.records (λ r. refl)
          (λ e r h. absurd (other e)) held in
      elim (Bool-cases (p == again (with_record rec (set_hazard j p) domain))) [
        | inl same ↦
            subst (λ (r : ℕ × HazardDomain). IsProtected r.1) (some-injective _ _ (rw same at run))
              still
        | inr changed ↦
            announce-IsProtected rounds rec j got (with_record rec (set_hazard j p) domain) after
              other (rw changed at run) still
      ]

  pub protect_at-IsProtected :
      (new : ℕ) (rounds : List Round) (domain : HazardDomain) (thread : Thread) (j : Option ℕ)
      (out : Outcome)
      → new ≢ address
      → (get_hazard_record new domain thread).rec ≢ address
      → protect_at new rounds domain thread j ≡ some out
      → IsProtected domain
      → IsProtected out.domain × (calls_on ptr out.calls ≡ 0)
  protect_at-IsProtected new rounds domain thread none out apart other run held =
      subst (λ (o : Outcome). IsProtected o.domain × (calls_on ptr o.calls ≡ 0))
        (some-injective _ _ run) (held, refl)
  protect_at-IsProtected new rounds domain thread (some j) out apart other run held =
      let c = get_hazard_record new domain thread in
      let now = get_hazard_record-Held i ptr address new domain thread apart held in
      elim (Bool-cases (c.rec == 0)) [
        | inl failed ↦
            subst (λ (o : Outcome). IsProtected o.domain × (calls_on ptr o.calls ≡ 0))
              (some-injective _ _ (rw failed at run)) (now, refl)
        | inr there ↦ elim (Option-cases (announce rounds c.rec j c.domain)) [
          | inl running ↦ absurd (none-ne-some _ (rw (there, running) at run))
          | inr ((got, after), done) ↦
              subst (λ (o : Outcome). IsProtected o.domain × (calls_on ptr o.calls ≡ 0))
                (some-injective (quiet got after c.thread) out (rw (there, done) at run))
                (announce-IsProtected rounds c.rec j got c.domain after other done now, refl)
        ]
      ]

  pub clear_at-IsProtected :
      (new : ℕ) (domain : HazardDomain) (thread : Thread) (j : Option ℕ)
      → new ≢ address
      → (get_hazard_record new domain thread).rec ≢ address
      → IsProtected domain
      → IsProtected (clear_at new domain thread j).domain
        × (calls_on ptr (clear_at new domain thread j).calls ≡ 0)
  clear_at-IsProtected new domain thread none apart other held = (held, refl)
  clear_at-IsProtected new domain thread (some j) apart other held =
      let c = get_hazard_record new domain thread in
      let now = get_hazard_record-Held i ptr address new domain thread apart held in
      elim (Bool-cases (c.rec == 0)) [
        | inl failed ↦ rw failed (now, refl)
        | inr there ↦ rw there (
          First-update (λ r. Holds r i ptr) address c.rec (set_hazard j 0) c.domain.records
              (λ r. refl) (λ e r h. absurd (other e)) now,
          refl,
        )
      ]
