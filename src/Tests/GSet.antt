-- ===== src/Tests/GSet.antt =====
-- Runs of the functions on sets, and the theorems about them at concrete sets.
use mathlib.Core.List.{Memᴰ}
use cauchy.Prelude.{
  ℕ, zero, suc, ◌≡◌, refl, true, false, none, some, List, [], ◌∷◌, list_eq, get_or, arith,
}
use cauchy.Convergence.{SameStates, deliver}
use cauchy.GSet.Union.{IsPlaced, Placed}
use cauchy.GSet.Converge.{g_sets, gset_converges}
use cauchy.GSet.Iter.{Iter}
use cauchy.TwoPhaseSet.Converge.{IsPair, two_phase_sets, pset_converges}
use cauchy.Types.{ok}
use cauchy.GSet
use cauchy.GSet.{Grant, granted, no_data, no_node, init, add, contains}
use cauchy.GSet.Membership.{IsTable}
use cauchy.TwoPhaseSet.{TwoPhaseSet, remove}
use cauchy.TwoPhaseSet
use cauchy.TwoPhaseSet.Removal.{removal_is_final}

-- Two buckets, and the string "a", whose FNV-1a hash is even.
abbrev a : List ℕ
a = 97 ∷ []

abbrev empty : GSet.GSet
empty = record { buckets = [] ∷ [] ∷ []; num_buckets = 2; count = 0 }

abbrev one : GSet.GSet
one = record {
  buckets = (record { bytes = a; size = 1; hash = 12638187200555641996 } ∷ []) ∷ [] ∷ [];
  num_buckets = 2;
  count = 1;
}

init_run : init true true (some one) 2 ≡ (ok, some empty)
unfolding init
init_run = refl

add_run : add granted (some empty) (some a) 1 ≡ (ok, some one)
unfolding add GSet.hash_data GSet.xor
add_run = refl

empty-IsTable : IsTable empty
empty-IsTable = record { width = refl; some_bucket = omega arith }

member : contains (some one) (some a) 1 ≡ true
unfolding contains GSet.hash_data GSet.xor list_eq
member = refl

removal_is_final_example :
    (new : TwoPhaseSet) × (remove granted
        (some (record { added = some one; removed = some empty }))
        (some a)
        1
      ≡ (ok, some new))
    × (TwoPhaseSet.contains (some new) (some a) 1 ≡ false)
    × ((grant : Grant) → TwoPhaseSet.add grant (some new) (some a) 1 ≡ (ok, some new))
removal_is_final_example = removal_is_final one empty a 1 empty-IsTable (omega arith) member

hash : 12638187200555641996 ≡ GSet.hash_data a 1
unfolding GSet.hash_data GSet.xor
hash = refl

one-IsPlaced : IsPlaced one
one-IsPlaced = record {
  table = record { width = refl; some_bucket = omega arith };
  placed = placed;
}
  where
    placed : (i : ℕ) → Placed 2 i (get_or one.buckets i [])
    placed zero = ((hash, refl, omega arith), tt)
    placed (suc zero) = tt
    placed (suc (suc i)) = tt

empty-IsPlaced : IsPlaced empty
empty-IsPlaced = record { table = empty-IsTable; placed = placed }
  where
    placed : (i : ℕ) → Placed 2 i (get_or empty.buckets i [])
    placed zero = tt
    placed (suc zero) = tt
    placed (suc (suc i)) = tt

same_sets : SameStates g_sets (one ∷ []) (one ∷ one ∷ [])
same_sets = (forth, back)
  where
    forth : (m : GSet.GSet) → Memᴰ m (one ∷ []) → Memᴰ m (one ∷ one ∷ [])
    forth m t = Memᴰ.tail t

    back : (m : GSet.GSet) → Memᴰ m (one ∷ one ∷ []) → Memᴰ m (one ∷ [])
    back m (Memᴰ.head e) = Memᴰ.head e
    back m (Memᴰ.tail t) = t

gset_converges_example :
    (c : GSet.GSet) × (d : GSet.GSet) × (deliver g_sets empty (one ∷ []) ≡ some c)
    × (deliver g_sets empty (one ∷ one ∷ []) ≡ some d)
    × ((bytes : List ℕ) (size : ℕ)
        → contains (some c) (some bytes) size ≡ contains (some d) (some bytes) size)
gset_converges_example =
    gset_converges empty empty (one ∷ []) (one ∷ one ∷ []) empty-IsPlaced empty-IsPlaced
      (λ bytes size. refl) (one-IsPlaced, tt) (one-IsPlaced, (one-IsPlaced, tt)) same_sets

-- What an iterator on the stack may hold.
abbrev iterator : Iter
iterator = record { gset = none; bucket_idx = 7; current = [] }

abbrev pair : TwoPhaseSet
pair = record { added = some one; removed = some empty }

pair-IsPair : IsPair pair
pair-IsPair = record {
  added = one;
  removed = empty;
  added_here = refl;
  removed_here = refl;
  added_ok = one-IsPlaced;
  removed_ok = empty-IsPlaced;
}

abbrev blank : TwoPhaseSet
blank = record { added = some empty; removed = some empty }

blank-IsPair : IsPair blank
blank-IsPair = record {
  added = empty;
  removed = empty;
  added_here = refl;
  removed_here = refl;
  added_ok = empty-IsPlaced;
  removed_ok = empty-IsPlaced;
}

same_pairs : SameStates two_phase_sets (pair ∷ []) (pair ∷ pair ∷ [])
same_pairs = (forth, back)
  where
    forth : (m : TwoPhaseSet) → Memᴰ m (pair ∷ []) → Memᴰ m (pair ∷ pair ∷ [])
    forth m t = Memᴰ.tail t

    back : (m : TwoPhaseSet) → Memᴰ m (pair ∷ pair ∷ []) → Memᴰ m (pair ∷ [])
    back m (Memᴰ.head e) = Memᴰ.head e
    back m (Memᴰ.tail t) = t

pset_converges_example :
    (c : TwoPhaseSet) × (d : TwoPhaseSet) × (deliver two_phase_sets blank (pair ∷ []) ≡ some c)
    × (deliver two_phase_sets blank (pair ∷ pair ∷ []) ≡ some d)
    × ((bytes : List ℕ) (size : ℕ)
        → TwoPhaseSet.contains (some c) (some bytes) size
          ≡ TwoPhaseSet.contains (some d) (some bytes) size)
pset_converges_example =
    pset_converges blank blank (pair ∷ []) (pair ∷ pair ∷ []) blank-IsPair blank-IsPair refl
      (pair-IsPair, tt) (pair-IsPair, (pair-IsPair, tt)) same_pairs
