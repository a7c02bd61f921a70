-- ===== src/TwoPhaseSet/Count.antt =====
-- The number of members of a 2P-Set.
use cauchy.Prelude.{
  ℕ, zero, suc, ◌+◌, ◌<◌, ◌≡◌, refl, ap, ◌∙◌, Option, none, some, List, [], ◌∷◌, map, length,
  if◌then◌else◌, arith,
}
use cauchy.GSet
use cauchy.GSet.Iter.{Iter, iter_init, iter_next}
use cauchy.GSet.Iter.Walk.{walk, item_of, gset_iterates}
use cauchy.TwoPhaseSet.{count_from, count}

-- How many of these items are not in `removed`.
abbrev pub remaining : Option GSet.GSet → List (List ℕ × ℕ) → ℕ
remaining removed [] = 0
remaining removed ((bytes, size) ∷ items) =
    (if GSet.contains removed (some bytes) size then 0 else 1) + remaining removed items

count_from-walk :
    (fuel : ℕ) (removed : Option GSet.GSet) (answer : Option (List ℕ × ℕ) × Option Iter)
    → count_from fuel removed answer ≡ remaining removed (walk fuel answer)
count_from-walk zero removed answer = refl
count_from-walk (suc fuel) removed (none, iter) = refl
count_from-walk (suc fuel) removed (some (bytes, size), iter) =
    ground (arith, count_from-walk fuel removed (iter_next iter))

-- The count is the number of elements in the table of additions that are no removals: its loop
-- reaches the end of the table, whatever the iterator on the stack held before.
pub pset_count :
    (iter : Iter) (added : GSet.GSet) (removed : Option GSet.GSet)
    → 0 < added.num_buckets
    → count iter (some (record { added = some added; removed = removed }))
      ≡ remaining removed (map item_of (GSet.elements added))
unfolding count
pset_count iter added removed some_bucket =
    count_from-walk (length (GSet.elements added) + 1) removed
      (iter_next (iter_init (some iter) (some added)))
    ∙ ap (remaining removed)
        (gset_iterates iter added (length (GSet.elements added) + 1) some_bucket (omega arith))
