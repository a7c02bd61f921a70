-- ===== src/Tests/OrSet.antt =====
-- Runs of the functions on OR-Sets, and the theorems about them at concrete sets.
use mathlib.Core.List.{Memᴰ}
use cauchy.Prelude.{
  ℕ, zero, suc, ◌%◌, ◌≤◌, ◌≡◌, refl, sym, true, false, none, some, List, [], ◌∷◌, ◌==◌, list_eq,
  get_or, map, if◌then◌else◌, arith, Bool-cases, inl, inr,
}
use cauchy.Types.{Uid, uid_create, uid_equals, ok, err_notfound}
use cauchy.Convergence.{SameStates}
use cauchy.GSet.{granted, no_node, hash_data, xor}
use cauchy.OrSet.{OrSet, Entry, init, add, remove, contains, count, is_empty, bury, matches}
use cauchy.OrSet.Merge.{merge, equals, entries, tagged}
use cauchy.OrSet.Status.{IsTable, tags, status_of, tagged_sound}
use cauchy.OrSet.Content.{IsWritten, Agrees}
use cauchy.OrSet.Replicas.{or_sets, succeeded}
use cauchy.Convergence.Classes.{State}
use cauchy.OrSet.Classes.{class_of, join, orset_classes}
use cauchy.OrSet.Local.{next_tag, Differs}
use cauchy.OrSet.AddWins.{orset_remove}
use cauchy.OrSet.Counts.{IsCounted, active}
use cauchy.OrSet.Counts.Updates.{IsCountedPtr, orset_counts}
use cauchy.OrSet.Iter.{Iter, iter_init, iter_next}
use cauchy.OrSet.Iter.Left.{item_of, keep}
use cauchy.OrSet.Iter.Walk.{walk, orset_iterates}
use cauchy.OrSet.Iter.Stall.{orset_iter_stalls}

-- Two buckets, and the string "a", whose FNV-1a hash is even.
abbrev pub a : List ℕ
a = 97 ∷ []

-- What node 1 added first.
abbrev pub entry : Entry
entry = record {
  bytes = a;
  size = 1;
  hash = 12638187200555641996;
  tag = record { node_id = 1; timestamp = 1 };
  removed = false;
}

abbrev pub empty : ℕ → OrSet
empty node = record {
  buckets = [] ∷ [] ∷ [];
  num_buckets = 2;
  entry_count = 0;
  active_count = 0;
  node_id = node;
  timestamp = 0;
}

abbrev pub one : OrSet
one = record {
  buckets = (entry ∷ []) ∷ [] ∷ [];
  num_buckets = 2;
  entry_count = 1;
  active_count = 1;
  node_id = 1;
  timestamp = 1;
}

-- In this world, every addition is of "a".
abbrev always : Uid → List ℕ
always tag = a

pub add_run : add granted (some (empty 1)) (some a) 1 ≡ (ok, some one)
unfolding add hash_data xor uid_create
add_run = refl

one-IsTable : IsTable one
one-IsTable = record { width = refl; some_bucket = omega arith; placed = placed }
  where
    placed :
        (i h : ℕ) (t : Uid) → tags h t (get_or one.buckets i []) ≤ (if h % 2 == i then 1 else 0)
    placed zero h t = elim (Bool-cases (tagged h t entry)) [
      | inl hit ↦ let (hash, _) = tagged_sound h t entry hit in ground (arith, hash)
      | inr miss ↦ ground arith
    ]
    placed (suc zero) h t = omega arith
    placed (suc (suc i)) h t = omega arith

one-IsWritten : IsWritten always one
one-IsWritten = record { table = one-IsTable; agrees = agrees }
  where
    agrees : (i : ℕ) → Agrees always (get_or one.buckets i [])
    agrees zero = ((refl, refl), tt)
    agrees (suc zero) = tt
    agrees (suc (suc i)) = tt

empty-IsWritten : (node : ℕ) → IsWritten always (empty node)
empty-IsWritten node = record {
  table = record { width = refl; some_bucket = omega arith; placed = placed };
  agrees = agrees;
}
  where
    placed :
        (i h : ℕ) (t : Uid)
        → tags h t (get_or (empty node).buckets i []) ≤ (if h % 2 == i then 1 else 0)
    placed zero h t = omega arith
    placed (suc zero) h t = omega arith
    placed (suc (suc i)) h t = omega arith

    agrees : (i : ℕ) → Agrees always (get_or (empty node).buckets i [])
    agrees zero = tt
    agrees (suc zero) = tt
    agrees (suc (suc i)) = tt

same_messages : SameStates (or_sets always) (one ∷ []) (one ∷ one ∷ [])
same_messages = (there, back)
  where
    there : (m : OrSet) → Memᴰ m (one ∷ []) → Memᴰ m (one ∷ one ∷ [])
    there m (Memᴰ.head e) = Memᴰ.head e
    there m (Memᴰ.tail t) = Memᴰ.tail (Memᴰ.tail t)

    back : (m : OrSet) → Memᴰ m (one ∷ one ∷ []) → Memᴰ m (one ∷ [])
    back m (Memᴰ.head e) = Memᴰ.head e
    back m (Memᴰ.tail t) = t

orset_remove_example :
    (c : OrSet) × (remove (some one) (some a) 1
      ≡ (if contains (some one) (some a) 1 then ok else err_notfound, some c))
    × IsWritten always c
    × (contains (some c) (some a) 1 ≡ false)
    × ((other : List ℕ) (size' : ℕ)
        → Differs other size' a 1
        → contains (some c) (some other) size' ≡ contains (some one) (some other) size')
orset_remove_example = orset_remove always one a 1 one-IsWritten (omega arith)

new_tag : status_of one (hash_data a 1) (next_tag (empty 2)) ≡ 0
unfolding hash_data xor uid_equals uid_create
new_tag = refl

unknown_tag : status_of (empty 2) (hash_data a 1) (next_tag (empty 2)) ≡ 0
unfolding hash_data xor
unknown_tag = refl

one-IsCounted : IsCounted one
one-IsCounted = record {
  width = refl;
  some_bucket = omega arith;
  total = refl;
  live = refl;
  fits = omega arith;
}

orset_counts_example :
    IsCountedPtr (init true true (some one) 5 1).1
    × IsCountedPtr (add no_node (some one) (some a) 1).1
    × IsCountedPtr (remove (some one) (some a) 1).1
    × IsCountedPtr (merge (λ i. granted) (some one) (some one)).1
    × (count (some one) ≡ active (entries one))
    × (is_empty (some one) ≡ true → contains (some one) (some a) 1 ≡ false)
orset_counts_example = orset_counts one one a 1 5 no_node (λ i. granted) one-IsCounted (omega arith)

-- What an iterator on the stack may hold.
abbrev iterator : Iter
iterator = record { orset = none; bucket_idx = 7; current = []; last_data = none; last_size = 0 }

orset_iterates_example :
    walk 2 (iter_next 1 (iter_init (some iterator) (some one)))
    ≡ some (map item_of (keep (entries one)))
orset_iterates_example = orset_iterates iterator one 2 (omega arith) (omega arith)

-- The only bucket, with an iterator at its entry, when "a" is removed.
abbrev single : OrSet
single = record {
  buckets = (record entry { removed = true } ∷ []) ∷ [];
  num_buckets = 1;
  entry_count = 1;
  active_count = 0;
  node_id = 1;
  timestamp = 1;
}

abbrev standing : Iter
standing = record {
  orset = some single;
  bucket_idx = 0;
  current = record entry { removed = true } ∷ [];
  last_data = none;
  last_size = 0;
}

hit : matches 12638187200555641996 a 1 entry ≡ true
unfolding list_eq
hit = refl

bury_run : bury 12638187200555641996 a 1 (entry ∷ []) ≡ (record entry { removed = true } ∷ [])
unfolding list_eq
bury_run = refl

orset_iter_stalls_example : iter_next 1000 (some standing) ≡ none
orset_iter_stalls_example =
    orset_iter_stalls 1000 standing single 12638187200555641996 a 1 entry [] refl (sym bury_run) hit
      (omega arith) (omega arith)

abbrev one_state : State (or_sets always)
one_state = (one, one-IsWritten)

abbrev empty_state : State (or_sets always)
empty_state = (empty 2, empty-IsWritten 2)

empty-IsCounted : IsCounted (empty 2)
empty-IsCounted = record {
  width = refl;
  some_bucket = omega arith;
  total = refl;
  live = refl;
  fits = omega arith;
}

orset_classes_example :
    let new = class_of always empty_state in
    let old = class_of always one_state in
    (c : State (or_sets always)) × (d : State (or_sets always)) × (succeeded
        (merge (λ k. granted) (some (empty 2)) (some one))
      ≡ some c.0)
    × (succeeded (merge (λ k. granted) (some one) (some (empty 2))) ≡ some d.0)
    × IsCounted c.0
    × IsCounted d.0
    × (count (some d.0) ≡ count (some c.0))
    × ((z : OrSet)
        → (equals (some z) (some c.0) ≡ equals (some z) (some d.0))
          × (equals (some c.0) (some z) ≡ equals (some d.0) (some z)))
    × ((bytes : List ℕ) (size : ℕ)
        → contains (some c.0) (some bytes) size ≡ contains (some d.0) (some bytes) size)
    × (join always new old ≡ class_of always c)
    × (join always old new ≡ class_of always d)
    × (join always new old ≡ join always old new)
    × (join always (join always new old) old ≡ join always new (join always old old))
    × (join always new new ≡ new)
orset_classes_example =
    orset_classes always empty_state one_state (class_of always empty_state)
      (class_of always one_state) (class_of always one_state) empty-IsCounted one-IsCounted
      (omega arith) (omega arith)
