-- ===== src/OrSet/Iter/Walk.antt =====
-- An iterator over an unchanged OR-Set.
use mathlib.Core.Option
use cauchy.Prelude.{
  ℕ, zero, suc, ◌-◌, ◌<◌, ◌≡◌, refl, sym, ap, ◌∙◌, false, Option, none, some, List, [], ◌∷◌, map,
  ltb, length, get_or, arith,
}
use cauchy.Chains.{chains, chains_from}
use cauchy.OrSet.{OrSet, Entry}
use cauchy.OrSet.Merge.{entries}
use cauchy.OrSet.Iter.{Iter, seek, pass, iter_init, iter_next}
use cauchy.OrSet.Iter.Left.{
  keep, item_of, keep-append, left, Stands, move, pass-Stands, seek-Stands,
}

-- The answers of `while (cauchy_orset_iter_next(...))`, from an answer on, in at most `fuel` rounds;
-- `none` where a call does not return or the fuel is used up.
abbrev pub walk : ℕ → Option (Option (List ℕ × ℕ) × Option Iter) → Option (List (List ℕ × ℕ))
walk zero answer = none
walk (suc fuel) none = none
walk (suc fuel) (some (none, iter)) = some []
walk (suc fuel) (some (some item, iter)) =
    Option.map (λ items. item ∷ items) (walk fuel (iter_next 1 iter))

walk-left :
    (fuel : ℕ) (iter : Iter) (orset : OrSet) (i : ℕ) (current before : List Entry)
    → Stands orset before i current
    → length before < fuel
    → walk fuel
        (iter_next 1 (some (record iter { orset = some orset; bucket_idx = i; current = current })))
      ≡ some (map item_of before)
unfolding iter_next
walk-left zero iter orset i current before stands enough = absurd (omega arith)
walk-left (suc fuel) iter orset i [] before stands enough =
    let (nothing, last) = stands.ends refl in
    let stop : ltb i (orset.num_buckets - 1) ≡ false = ground arith in rw (stop, nothing) refl
walk-left (suc fuel) iter orset i (x ∷ xs) before stands enough =
    let live : x.removed ≡ false = stands.ready in
    let same : x ∷ left orset i xs ≡ before = sym (simp live refl) ∙ stands.same in
    let rest =
      walk-left fuel iter orset (pass orset i xs).0 (pass orset i xs).1 (left orset i xs)
        (pass-Stands orset i xs) (omega (arith, ap length same)) in
    simp live (
      ap (Option.map (λ items. (x.bytes, x.size) ∷ items)) rest
      ∙ ap (λ zs. some (map item_of zs)) same)

-- A loop that takes every answer of an iterator over an unchanged set gets every active entry once,
-- in the order of the table, and then ends: every call returns within one round, and one call more
-- than there are active entries is enough.
pub orset_iterates :
    (iter : Iter) (orset : OrSet) (fuel : ℕ)
    → 0 < orset.num_buckets
    → length (keep (entries orset)) < fuel
    → walk fuel (iter_next 1 (iter_init (some iter) (some orset)))
      ≡ some (map item_of (keep (entries orset)))
unfolding iter_init
orset_iterates iter orset fuel some_bucket enough =
    let whole : orset.num_buckets - 0 ≡ orset.num_buckets = omega arith in
    let first = get_or orset.buckets 0 [] in
    let all : left orset 0 first ≡ keep (entries orset) =
      sym (keep-append first _)
      ∙ ap keep (
          sym (chains_from orset.buckets orset.num_buckets 0 some_bucket)
          ∙ ap (chains orset.buckets) whole) in
    let fresh : Iter = record {
      orset = none;
      bucket_idx = 0;
      current = [];
      last_data = none;
      last_size = 0;
    } in
    walk-left fuel fresh orset (seek orset.num_buckets orset 0 first).0
      (seek orset.num_buckets orset 0 first).1 (keep (entries orset))
      (move orset all
        (seek-Stands orset.num_buckets orset 0 first (omega arith) (λ e. absurd (omega arith))))
      enough
