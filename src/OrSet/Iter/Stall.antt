-- ===== src/OrSet/Iter/Stall.antt =====
-- An iterator over an OR-Set from which its entry is removed.
use cauchy.Prelude.{
  ℕ, zero, suc, ◌+◌, ◌%◌, ◌≤◌, ◌<◌, ◌≡◌, refl, ap, ◌∙◌, true, false, none, some, List, ◌∷◌, ltb,
  arith,
}
use cauchy.Cells.{u64_mod}
use cauchy.OrSet.{OrSet, Entry, matches, bury}
use cauchy.OrSet.Iter.{Iter, next_round, iter_next, next_in, placed_at}

stalled :
    (fuel : ℕ) (orset : OrSet) (i : ℕ) (x : Entry) (xs : List Entry)
    → x.removed ≡ true
    → orset.num_buckets ≤ i + 1
    → i + fuel < u64_mod
    → next_round fuel orset i (x ∷ xs) ≡ none
stalled zero orset i x xs gone last small = refl
stalled (suc fuel) orset i x xs gone last small =
    let index : (i + 1) % u64_mod ≡ i + 1 = omega arith in
    let none_there : ltb (i + 1) orset.num_buckets ≡ false = ground arith in
    let rest = stalled fuel orset (i + 1) x xs gone (omega arith) (omega arith) in
    simp (gone, index, none_there) rest

-- When the entry at which an iterator stands in the last bucket is removed, the next call of
-- `iter_next` does not end: it is still in its loop after any number of rounds for which the bucket
-- index does not wrap.
pub orset_iter_stalls :
    (fuel : ℕ) (iter : Iter) (orset : OrSet) (h : ℕ) (bytes : List ℕ) (size : ℕ) (x : Entry)
    (xs : List Entry)
    → iter.orset ≡ some orset
    → iter.current ≡ bury h bytes size (x ∷ xs)
    → matches h bytes size x ≡ true
    → orset.num_buckets ≤ iter.bucket_idx + 1
    → iter.bucket_idx + fuel < u64_mod
    → iter_next fuel (some iter) ≡ none
unfolding iter_next
orset_iter_stalls fuel iter orset h bytes size x xs over at found last small =
    let gone = record x { removed = true } in
    let rest = bury h bytes size xs in
    let here : iter.current ≡ gone ∷ rest = at ∙ simp found refl in
    ap (next_in fuel iter) over
    ∙ ap (λ chain. placed_at iter (next_round fuel orset iter.bucket_idx chain)) here
    ∙ ap (placed_at iter) (stalled fuel orset iter.bucket_idx gone rest refl last small)
