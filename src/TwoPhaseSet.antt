-- ===== src/TwoPhaseSet.antt =====
-- include/cauchy/crdt/2p_set.h and src/crdt/2p_set.c: a set of what was added and a set of what was
-- removed; a removal is final. A pointer that may be NULL is an `Option`.
pub mod Removal
pub mod Converge
pub mod Count
use cauchy.Prelude.{
  ℕ, zero, suc, ◌+◌, Bool, true, false, ◌&&◌, not, Option, none, some, List, length, ◌==◌,
  if◌then◌else◌,
}
use cauchy.Types.{Result, ok, err_nomem, err_invalid, err_notfound}
use cauchy.Bytes.Text.{strlen}
use cauchy.GSet
use cauchy.GSet.{Grant}
use cauchy.GSet.Iter.{Iter, iter_init, iter_next}

-- `cauchy_2pset_t`
pub record TwoPhaseSet : Type 0 where
  pub added : Option GSet.GSet
  pub removed : Option GSet.GSet

-- What `cauchy_gset_create` returned for the two members. A set that is destroyed again is NULL here.
unfoldable pub init :
    Option GSet.GSet → Option GSet.GSet → Option TwoPhaseSet → Result × Option TwoPhaseSet
init added removed none = (err_invalid, none)
init none removed (some pset) = (err_nomem, some (record pset { added = none }))
init (some added) none (some pset) = (err_nomem, some (record { added = none; removed = none }))
init (some added) (some removed) (some pset) =
    (ok, some (record { added = some added; removed = some removed }))

unfoldable pub create :
    Option GSet.GSet → Option GSet.GSet → Option TwoPhaseSet → Option TwoPhaseSet
create added removed block = made (init added removed block)
  where
    made : Result × Option TwoPhaseSet → Option TwoPhaseSet
    made (ok, pset) = pset
    made (_, pset) = none

-- A call on a member, with the answer passed on.
abbrev pub with_added : TwoPhaseSet → Result × Option GSet.GSet → Result × Option TwoPhaseSet
with_added pset (res, added) = (res, some (record pset { added = added }))

abbrev pub with_removed : TwoPhaseSet → Result × Option GSet.GSet → Result × Option TwoPhaseSet
with_removed pset (res, removed) = (res, some (record pset { removed = removed }))

unfoldable pub add : Grant → Option TwoPhaseSet → Option (List ℕ) → ℕ → Result × Option TwoPhaseSet
add grant none bytes size = (err_invalid, none)
add grant (some pset) bytes size =
    if GSet.contains pset.removed bytes size
    then (ok, some pset)
    else with_added pset (GSet.add grant pset.added bytes size)

unfoldable pub remove :
    Grant → Option TwoPhaseSet → Option (List ℕ) → ℕ → Result × Option TwoPhaseSet
remove grant none bytes size = (err_invalid, none)
remove grant (some pset) bytes size =
    if not (GSet.contains pset.added bytes size)
    then (err_notfound, some pset)
    else with_removed pset (GSet.add grant pset.removed bytes size)

unfoldable pub contains : Option TwoPhaseSet → Option (List ℕ) → ℕ → Bool
contains none bytes size = false
contains (some pset) bytes size =
    GSet.contains pset.added bytes size && not (GSet.contains pset.removed bytes size)

unfoldable pub was_added : Option TwoPhaseSet → Option (List ℕ) → ℕ → Bool
was_added none bytes size = false
was_added (some pset) bytes size = GSet.contains pset.added bytes size

unfoldable pub was_removed : Option TwoPhaseSet → Option (List ℕ) → ℕ → Bool
was_removed none bytes size = false
was_removed (some pset) bytes size = GSet.contains pset.removed bytes size

-- The loop of `count`, from an answer of the iterator. Its fuel is the number of elements and one.
abbrev pub count_from : ℕ → Option GSet.GSet → Option (List ℕ × ℕ) × Option Iter → ℕ
count_from zero removed answer = 0
count_from (suc fuel) removed (none, iter) = 0
count_from (suc fuel) removed (some (bytes, size), iter) =
    let rest = count_from fuel removed (iter_next iter) in
    if not (GSet.contains removed (some bytes) size) then rest + 1 else rest

-- `iter` is what the uninitialized iterator on the stack holds.
abbrev pub count_members : Iter → Option GSet.GSet → Option GSet.GSet → ℕ
count_members iter none removed = 0
count_members iter (some added) removed =
    count_from (length (GSet.elements added) + 1) removed
      (iter_next (iter_init (some iter) (some added)))

unfoldable pub count : Iter → Option TwoPhaseSet → ℕ
count iter none = 0
count iter (some pset) = count_members iter pset.added pset.removed

unfoldable pub is_empty : Iter → Option TwoPhaseSet → Bool
unfolding count
is_empty iter pset = count iter pset == 0

unfoldable pub merge :
    (ℕ → Grant)
    → (ℕ → Grant)
    → Option TwoPhaseSet
    → Option TwoPhaseSet
    → Result × Option TwoPhaseSet
merge memory memory' (some dst) (some src) = continue (GSet.merge memory dst.added src.added)
  where
    continue : Result × Option GSet.GSet → Result × Option TwoPhaseSet
    continue (ok, added) =
        with_removed (record dst { added = added }) (GSet.merge memory' dst.removed src.removed)
    continue (res, added) = (res, some (record dst { added = added }))
merge memory memory' dst _ = (err_invalid, dst)

unfoldable pub equals : Option TwoPhaseSet → Option TwoPhaseSet → Bool
equals none none = true
equals none (some b) = false
equals (some a) none = false
equals (some a) (some b) = GSet.equals a.added b.added && GSet.equals a.removed b.removed

unfoldable pub add_string :
    Grant → Option TwoPhaseSet → Option (List ℕ) → Result × Option TwoPhaseSet
add_string grant pset none = (err_invalid, pset)
add_string grant pset (some str) = add grant pset (some str) (strlen str + 1)

unfoldable pub remove_string :
    Grant → Option TwoPhaseSet → Option (List ℕ) → Result × Option TwoPhaseSet
remove_string grant pset none = (err_invalid, pset)
remove_string grant pset (some str) = remove grant pset (some str) (strlen str + 1)

unfoldable pub contains_string : Option TwoPhaseSet → Option (List ℕ) → Bool
contains_string pset none = false
contains_string pset (some str) = contains pset (some str) (strlen str + 1)
