-- ===== src/GSet/Iter/Walk.antt =====
-- An iterator over an unchanged G-Set, from its first answer on.
use mathlib.Core.List.{append-nil}
use cauchy.Prelude.{
  ℕ, zero, suc, ◌+◌, ◌-◌, ◌≤◌, ◌<◌, ◌≡◌, refl, sym, ap, ◌∙◌, true, Option, none, some, List, [],
  ◌∷◌, ◌++◌, map, ltb, length, get_or, drop, arith, Bool-cases, inl, inr,
}
use cauchy.Chains.{chains, chains_from}
use cauchy.GSet.{GSet, Elem, elements}
use cauchy.GSet.Iter.{Iter, at_end, skip, iter_init, iter_next, visit}

-- The answers of `while (cauchy_gset_iter_next(...))`, from an answer on, in at most `fuel` rounds.
abbrev pub walk : ℕ → Option (List ℕ × ℕ) × Option Iter → List (List ℕ × ℕ)
walk zero answer = []
walk (suc fuel) (none, iter) = []
walk (suc fuel) (some item, iter) = item ∷ walk fuel (iter_next iter)

abbrev pub item_of : Elem → List ℕ × ℕ
item_of elem = (elem.bytes, elem.size)

-- The elements that an iterator has not passed.
abbrev left : GSet → ℕ → List Elem → List Elem
left gset i current = current ++ chains (drop (i + 1) gset.buckets) (gset.num_buckets - (i + 1))

left_last :
    (gset : GSet) (i : ℕ) (current : List Elem)
    → gset.num_buckets ≤ i + 1
    → left gset i current ≡ current
left_last gset i current last =
    let none_more : gset.num_buckets - (i + 1) ≡ 0 = omega arith in
    rw none_more (append-nil current)

skip-left :
    (fuel : ℕ) (gset : GSet) (i : ℕ) (current : List Elem)
    → gset.num_buckets ≤ i + 1 + fuel
    → let (j, next) = skip fuel gset i current in
      (left gset j next ≡ left gset i current) × (at_end next ≡ true → left gset i current ≡ [])
skip-left zero gset i [] enough = (refl, λ e. left_last gset i [] (omega (arith, enough)))
skip-left zero gset i (x ∷ xs) enough = (refl, λ e. cc e)
skip-left (suc fuel) gset i (x ∷ xs) enough = (refl, λ e. cc e)
skip-left (suc fuel) gset i [] enough = elim (Bool-cases (ltb i (gset.num_buckets - 1))) [
  | inl more ↦
      let step = chains_from gset.buckets gset.num_buckets (i + 1) (ground arith) in
      let (same, ends) =
        skip-left fuel gset (i + 1) (get_or gset.buckets (i + 1) []) (omega arith) in
      rw more (same ∙ sym step, λ e. step ∙ ends e)
  | inr last ↦ rw last (refl, λ e. left_last gset i [] (ground arith))
]

walk-left :
    (fuel : ℕ) (gset : GSet) (i : ℕ) (current : List Elem)
    → (at_end current ≡ true → left gset i current ≡ [])
    → length (left gset i current) < fuel
    → walk fuel (visit (some gset) i current) ≡ map item_of (left gset i current)
unfolding iter_next
walk-left zero gset i current ends enough = absurd (omega arith)
walk-left (suc fuel) gset i [] ends enough = sym (ap (map item_of) (ends refl))
walk-left (suc fuel) gset i (x ∷ xs) ends enough =
    let (same, ends') = skip-left gset.num_buckets gset i xs (omega arith) in
    let j = (skip gset.num_buckets gset i xs).0 in
    let next = (skip gset.num_buckets gset i xs).1 in
    let rest = walk-left fuel gset j next (λ e. same ∙ ends' e) (omega (arith, ap length same)) in
    ap (λ items. (x.bytes, x.size) ∷ items) (rest ∙ ap (map item_of) same)

-- A loop that takes every answer of an iterator over an unchanged set gets every element once, in
-- the order of the table, and then ends: one round more than there are elements is enough.
pub gset_iterates :
    (iter : Iter) (gset : GSet) (fuel : ℕ)
    → 0 < gset.num_buckets
    → length (elements gset) < fuel
    → walk fuel (iter_next (iter_init (some iter) (some gset))) ≡ map item_of (elements gset)
unfolding iter_init iter_next
gset_iterates iter gset fuel some_bucket enough =
    let whole : gset.num_buckets - 0 ≡ gset.num_buckets = omega arith in
    let first = chains_from gset.buckets gset.num_buckets 0 some_bucket in
    let all : left gset 0 (get_or gset.buckets 0 []) ≡ elements gset =
      sym first ∙ ap (chains gset.buckets) whole in
    let (same, ends) = skip-left gset.num_buckets gset 0 (get_or gset.buckets 0 []) (omega arith) in
    let start = skip gset.num_buckets gset 0 (get_or gset.buckets 0 []) in
    walk-left fuel gset start.0 start.1 (λ e. same ∙ ends e)
      (omega (arith, ap length same, ap length all))
    ∙ ap (map item_of) (same ∙ all)
