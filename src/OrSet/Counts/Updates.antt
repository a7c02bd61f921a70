-- ===== src/OrSet/Counts/Updates.antt =====
-- The counters of an OR-Set and its operations.
use cauchy.Prelude.{
  ℕ, zero, suc, ◌+◌, ◌%◌, ◌≤◌, ◌<◌, ◌≡◌, refl, sym, true, false, Option, none, some, List, [], ◌∷◌,
  ◌==◌, length, replicate, arith, Bool-cases, inl, inr, length-replicate,
}
use cauchy.Cells.{u64_mod}
use cauchy.Chains.{chains}
use cauchy.GSet.{Grant, granted, no_data, no_node, hash_data}
use cauchy.OrSet.{
  OrSet, Entry, entry_of, matches, found, bury, uncount, insert, add, remove, contains, count,
  is_empty, init, fresh,
}
use cauchy.OrSet.Merge.{chain_at, entries, merge}
use cauchy.OrSet.Content.{matches_sound}
use cauchy.OrSet.Counts.{
  active, IsCounted, with_chain-IsCounted, merge_all-IsCounted, uncount-bury, length-bury,
  chain-le-entries, active-le-length,
}

abbrev pub IsCountedPtr : Option OrSet → Type 0
IsCountedPtr none = Unit
IsCountedPtr (some orset) = IsCounted orset

module _ (orset : OrSet) (bytes : List ℕ) (size : ℕ) (c : IsCounted orset) where
  insert-IsCounted :
      (grant : Grant)
      → orset.entry_count + 1 < u64_mod
      → IsCountedPtr (insert orset bytes size grant).1
  insert-IsCounted no_node room = c
  insert-IsCounted no_data room = c
  insert-IsCounted granted room =
      let h = hash_data bytes size in
      with_chain-IsCounted orset h (entry_of orset bytes size ∷ chain_at orset h)
        ((orset.entry_count + 1) % u64_mod) ((orset.active_count + 1) % u64_mod)
        ((orset.timestamp + 1) % u64_mod) c (omega arith)
        (omega (arith, c.live, c.total, active-le-length (entries orset))) (omega arith)

  add-IsCounted :
      (grant : Grant)
      → orset.entry_count + 1 < u64_mod
      → IsCountedPtr (add grant (some orset) (some bytes) size).1
  unfolding add
  add-IsCounted grant room = elim (Bool-cases (size == 0)) [
    | inl empty ↦ rw empty c
    | inr any ↦ rw any (insert-IsCounted grant room)
  ]

  remove-IsCounted : IsCountedPtr (remove (some orset) (some bytes) size).1
  unfolding remove
  remove-IsCounted = elim (Bool-cases (size == 0)) [
    | inl empty ↦ rw empty c
    | inr any ↦
        let h = hash_data bytes size in
        let chain = chain_at orset h in
        let (here, _) =
          chain-le-entries orset.buckets orset.num_buckets (h % orset.num_buckets)
            (omega (arith, c.some_bucket)) in
        let le : active chain ≤ orset.active_count = omega (arith, here, c.live) in
        let lt : orset.active_count < u64_mod =
          omega (arith, c.live, c.total, c.fits, active-le-length (entries orset)) in
        rw any (
          with_chain-IsCounted orset h (bury h bytes size chain) orset.entry_count
            (uncount h bytes size chain orset.active_count) orset.timestamp c
            (omega (arith, length-bury h bytes size chain))
            (uncount-bury h bytes size chain orset.active_count le lt) c.fits)
  ]

found-active :
    (h : ℕ) (bytes : List ℕ) (size : ℕ) (xs : List Entry)
    → found h bytes size xs ≡ true
    → 0 < active xs
found-active h bytes size [] hit = absurd (cc hit)
found-active h bytes size (x ∷ xs) hit = elim (Bool-cases (matches h bytes size x)) [
  | inl here ↦ let (live, _, _, _) = matches_sound h bytes size x here in rw live (omega arith)
  | inr there ↦ omega (arith, found-active h bytes size xs (ground arith))
]

empty-contains :
    (orset : OrSet) (bytes : List ℕ) (size : ℕ)
    → IsCounted orset
    → is_empty (some orset) ≡ true
    → contains (some orset) (some bytes) size ≡ false
unfolding is_empty contains
empty-contains orset bytes size c empty = elim (Bool-cases (size == 0)) [
  | inl no_bytes ↦ rw no_bytes
  | inr any ↦
      let h = hash_data bytes size in
      elim (Bool-cases (found h bytes size (chain_at orset h))) [
        | inl hit ↦
            let some_active = found-active h bytes size (chain_at orset h) hit in
            let (here, _) =
              chain-le-entries orset.buckets orset.num_buckets (h % orset.num_buckets)
                (omega (arith, c.some_bucket)) in
            let no_active : orset.active_count ≡ 0 = ground arith in
            absurd (omega (arith, some_active, here, c.live, no_active))
        | inr miss ↦ rw (any, miss)
      ]
]

replicate-chains :
    (n m : ℕ)
    → (length (chains (replicate {A = List Entry} n []) m) ≡ 0)
      × (active (chains (replicate {A = List Entry} n []) m) ≡ 0)
replicate-chains n zero = (refl, refl)
replicate-chains zero (suc m) = (refl, refl)
replicate-chains (suc n) (suc m) = replicate-chains n m

-- A set made by a successful `init` has exact counters.
init-IsCounted :
    (block : OrSet) (capacity node_id : ℕ)
    → IsCountedPtr (init true true (some block) capacity node_id).1
unfolding init
init-IsCounted block capacity node_id = elim (Bool-cases (capacity == 0)) [
  | inl default ↦ rw default (made 16 (omega arith))
  | inr given ↦ rw given (made capacity (ground arith))
]
  where
    made : (n : ℕ) → 0 < n → IsCounted (fresh (replicate n []) n node_id)
    made n pos = record {
      width = length-replicate {A = List Entry} n [];
      some_bucket = pos;
      total = sym (replicate-chains n n).0;
      live = sym (replicate-chains n n).1;
      fits = omega arith;
    }

-- From a set whose counters are exact, an addition, a removal and a merge, each with or without
-- memory, lead to such a set again, as long as the number of entries fits 64 bits; so does `init`.
-- The reported count is then the number of active entries, and a set reported empty has no member.
pub orset_counts :
    (orset src : OrSet) (bytes : List ℕ) (size capacity : ℕ) (grant : Grant) (memory : ℕ → Grant)
    → IsCounted orset
    → orset.entry_count + length (entries src) + 1 < u64_mod
    → IsCountedPtr (init true true (some src) capacity orset.node_id).1
      × IsCountedPtr (add grant (some orset) (some bytes) size).1
      × IsCountedPtr (remove (some orset) (some bytes) size).1
      × IsCountedPtr (merge memory (some orset) (some src)).1
      × (count (some orset) ≡ active (entries orset))
      × (is_empty (some orset) ≡ true → contains (some orset) (some bytes) size ≡ false)
unfolding merge count
orset_counts orset src bytes size capacity grant memory c room = (
  init-IsCounted src capacity orset.node_id,
  add-IsCounted orset bytes size c grant (omega arith),
  remove-IsCounted orset bytes size c,
  merge_all-IsCounted memory 0 orset (entries src) c (omega arith),
  c.live,
  empty-contains orset bytes size c,
)
