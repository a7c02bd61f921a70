-- ===== src/Tests/Hazard.antt =====
-- Runs of hazard pointers, and the theorems about them at concrete states.
use mathlib.Core.List.{Memᴰ}
use cauchy.Prelude.{ℕ, ◌+◌, ◌≡◌, ◌≢◌, refl, true, some, List, [], ◌∷◌, ◌++◌, length, arith}
use cauchy.Prelude.Int.{pos}
use cauchy.Hazard.{
  Round, RetiredNode, HazardRecord, HazardDomain, Thread, Outcome, new_record, get_hazard_record,
  protect,
}
use cauchy.Hazard.Retire.{call_of, domain_create, find_record, calls_of, reclaim, retire}
use cauchy.Hazard.Records.{First, here, later}
use cauchy.Hazard.Protected.{calls_on, IsProtected}
use cauchy.Hazard.Survival.{
  Acts, start, next, reclaims, retires, IsInUse, hazard_survives, hazard_protects,
}
use cauchy.Hazard.Stale.{hazard_stale}
use cauchy.Hazard.Reclaim.{AllBusy, IsCounted, hazard_reclaims}

-- One thread reads the node at 5000, another has retired it together with the node at 6000.
abbrev reader : HazardRecord
reader = record (new_record 100) { hazards = 5000 ∷ 0 ∷ 0 ∷ 0 ∷ [] }

abbrev node : ℕ → RetiredNode
node ptr = record { ptr = ptr; retire_fn = true; ctx = 1 }

abbrev writer : HazardRecord
writer = record (new_record 200) { retired_list = node 6000 ∷ node 5000 ∷ []; retired_count = 2 }

abbrev domain : HazardDomain
domain = record { address = 10; records = writer ∷ reader ∷ []; record_count = 2 }

-- The thread-local variables of the two, and of a third thread.
abbrev writing : Thread
writing = record { domain = 10; hazard_record = 200 }

abbrev reading : Thread
reading = record { domain = 10; hazard_record = 100 }

abbrev other : Thread
other = record { domain = 0; hazard_record = 0 }

reclaim_run : (reclaim 0 domain writing).calls ≡ ((6000, 1) ∷ [])
unfolding reclaim get_hazard_record
reclaim_run = refl

protected : IsProtected 100 0 5000 domain
protected =
    later writer (reader ∷ []) (λ e. absurd (omega (arith, e)))
      (here reader [] refl (record { active = refl; small = omega arith; slot = refl }))

-- The writer retires a node and reclaims, and so does a third thread with a new record.
abbrev after_retire : HazardDomain
after_retire = (retire 0 true domain writing (node 5000)).domain

writing_claim : (get_hazard_record 0 domain writing).rec ≢ 0
unfolding get_hazard_record
writing_claim e = absurd (omega (arith, e))

calls : Acts 100 domain (reclaim 300 after_retire other).domain (
    ([] ++ (retire 0 true domain writing (node 5000)).calls)
    ++ (reclaim 300 after_retire other).calls)
calls =
    next (next start (retires 0 writing (node 5000) (λ e. absurd (omega (arith, e))) writing_claim))
      (reclaims 300 other (λ e. absurd (omega (arith, e))))

hazard_survives_example :
    IsProtected 100 0 5000 (reclaim 300 after_retire other).domain
    × (calls_on 5000 (
          ([] ++ (retire 0 true domain writing (node 5000)).calls)
          ++ (reclaim 300 after_retire other).calls)
        ≡ 0)
hazard_survives_example = hazard_survives 100 0 5000 domain _ _ protected calls

reading_claim : (get_hazard_record 0 domain reading).rec ≢ 0
unfolding get_hazard_record
reading_claim e = absurd (omega (arith, e))

reading_record :
    First IsInUse
      (get_hazard_record 0 domain reading).rec
      (get_hazard_record 0 domain reading).domain.records
unfolding get_hazard_record
reading_record =
    later writer (reader ∷ []) (λ e. absurd (omega (arith, e)))
      (here reader [] refl (record { active = refl; slots = refl }))

-- The first round reads a pointer that is replaced, the second one is stable.
abbrev rounds : List Round
rounds = (5000, λ d. 7000) ∷ (7000, λ d. 7000) ∷ []

hazard_protects_example :
    (out : Outcome) × (again : HazardDomain → ℕ) × (protect 0 rounds domain reading (pos 1)
      ≡ some out)
    × Memᴰ (out.answer, again) rounds
    × (again out.domain ≡ out.answer)
    × IsProtected (get_hazard_record 0 domain reading).rec 1 out.answer out.domain
    × (out.calls ≡ [])
hazard_protects_example =
    hazard_protects 0 rounds domain reading 1 7000 (omega arith) reading_claim reading_record
      (λ d. 7000, Memᴰ.tail (Memᴰ.head refl), λ d. refl)

writing_record :
    First IsCounted
      (get_hazard_record 0 domain writing).rec
      (get_hazard_record 0 domain writing).domain.records
unfolding get_hazard_record
writing_record = here writer (reader ∷ []) refl (record { count = refl; fits = omega arith })

hazard_reclaims_example :
    let c = get_hazard_record 0 domain writing in
    let out = reclaim 0 domain writing in
    let nodes = (find_record c.rec c.domain.records).retired_list in
    let after = find_record c.rec out.domain.records in
    AllBusy c.domain after.retired_list
    × (out.answer + length after.retired_list ≡ length nodes)
    × (after.retired_count ≡ length after.retired_list)
    × ((ptr : ℕ)
        → calls_on ptr out.calls + calls_on ptr (calls_of after.retired_list)
          ≡ calls_on ptr (calls_of nodes))
hazard_reclaims_example = hazard_reclaims 0 domain writing writing_claim writing_record

hazard_stale_example :
    (domain' : HazardDomain) × (out : Outcome) × (domain_create 10 ≡ some domain')
    × (protect 0 ((5000, λ d. 5000) ∷ []) domain' reading (pos 0) ≡ some out)
    × (out.answer ≡ 5000)
    × ((reclaim 0
          (retire 300 true out.domain other (node 5000)).domain
          (retire 300 true out.domain other (node 5000)).thread).calls
        ≡ call_of (node 5000))
hazard_stale_example =
    hazard_stale 10 100 5000 300 0 other (node 5000) (omega arith) (λ e. absurd (omega (arith, e)))
      (λ e. absurd (omega (arith, e))) (λ e. absurd (omega (arith, e))) (omega arith)
      (λ e. absurd (omega (arith, e))) refl
