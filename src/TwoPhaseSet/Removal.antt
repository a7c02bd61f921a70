-- ===== src/TwoPhaseSet/Removal.antt =====
-- Removals, and additions after them.
use cauchy.Prelude.{ℕ, ◌<◌, ◌≡◌, true, false, some, List, Bool-cases, inl, inr}
use cauchy.Types.{ok}
use cauchy.GSet
use cauchy.GSet.{Grant, granted}
use cauchy.GSet.Membership.{IsTable, gset_add}
use cauchy.TwoPhaseSet.{TwoPhaseSet, add, remove, contains}

-- Removing an element of at least one byte that was added succeeds, given memory and a well-formed
-- table of removals; it is then no member, and adding it
-- again, with or without memory, reports success and changes nothing.
pub removal_is_final :
    (added removed : GSet.GSet) (bytes : List ℕ) (size : ℕ)
    → IsTable removed
    → 0 < size
    → GSet.contains (some added) (some bytes) size ≡ true
    → (new : TwoPhaseSet) × (remove granted
          (some (record { added = some added; removed = some removed }))
          (some bytes)
          size
        ≡ (ok, some new))
      × (contains (some new) (some bytes) size ≡ false)
      × ((grant : Grant) → add grant (some new) (some bytes) size ≡ (ok, some new))
unfolding add remove contains
removal_is_final added removed bytes size t any member =
    let (again, fresh) = gset_add removed bytes size t any in
    elim (Bool-cases (GSet.contains (some removed) (some bytes) size)) [
      | inl gone ↦ (
        record { added = some added; removed = some removed },
        rw (member, again gone granted),
        rw (member, gone),
        λ grant. rw gone,
      )
      | inr here ↦
          let (_, _, (new, run, _, _, own, _)) = fresh here in
          (
            record { added = some added; removed = some new },
            rw (member, run),
            rw (member, own),
            λ grant. rw own,
          )
    ]
