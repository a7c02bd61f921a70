-- ===== src/OrSet/Iter/Left.antt =====
-- What an iterator over an OR-Set has not passed yet.
use cauchy.Prelude.{
  ℕ, zero, suc, ◌+◌, ◌-◌, ◌≤◌, ◌<◌, ◌≡◌, refl, sym, subst, ap, ◌∙◌, Bool, true, false, List, [],
  ◌∷◌, ◌++◌, ltb, get_or, drop, if◌then◌else◌, arith, Bool-cases, inl, inr,
}
use cauchy.Chains.{chains, chains_from}
use cauchy.OrSet.{OrSet, Entry}
use cauchy.OrSet.Iter.{at_end, skip_removed, bucket_or, seek, advance, pass}

-- The active entries.
abbrev pub keep : List Entry → List Entry
keep [] = []
keep (e ∷ next) = let rest = keep next in if e.removed then rest else e ∷ rest

abbrev pub item_of : Entry → List ℕ × ℕ
item_of e = (e.bytes, e.size)

-- The iterator stands at an active entry, or at the end of a chain.
abbrev IsReady : List Entry → Type 0
IsReady [] = Unit
IsReady (e ∷ next) = e.removed ≡ false

pub keep-append : (xs ys : List Entry) → keep (xs ++ ys) ≡ keep xs ++ keep ys
keep-append [] ys = refl
keep-append (x ∷ xs) ys = simp (keep-append xs ys) (choose x.removed (keep xs) (keep ys))
  where
    choose :
        (b : Bool) (us vs : List Entry)
        → (if b then us ++ vs else x ∷ us ++ vs) ≡ (if b then us else x ∷ us) ++ vs
    choose true us vs = refl
    choose false us vs = refl

keep-skip_removed :
    (xs : List Entry) → (keep (skip_removed xs) ≡ keep xs) × IsReady (skip_removed xs)
keep-skip_removed [] = (refl, tt)
keep-skip_removed (x ∷ xs) = choose x.removed refl (keep-skip_removed xs)
  where
    choose :
        (b : Bool)
        → x.removed ≡ b
        → (keep (skip_removed xs) ≡ keep xs) × IsReady (skip_removed xs)
        → (keep (if b then skip_removed xs else x ∷ xs) ≡ (if b then keep xs else x ∷ keep xs))
          × IsReady (if b then skip_removed xs else x ∷ xs)
    choose true e rest = rest
    choose false e rest = (simp e, e)

-- The active entries that an iterator has not passed.
abbrev pub left : OrSet → ℕ → List Entry → List Entry
left orset i current =
    keep current ++ keep (chains (drop (i + 1) orset.buckets) (orset.num_buckets - (i + 1)))

left_next :
    (orset : OrSet) (i : ℕ)
    → i + 1 < orset.num_buckets
    → left orset i [] ≡ left orset (i + 1) (get_or orset.buckets (i + 1) [])
left_next orset i lt =
    ap keep (chains_from orset.buckets orset.num_buckets (i + 1) lt)
    ∙ keep-append (get_or orset.buckets (i + 1) []) _

left_last : (orset : OrSet) (i : ℕ) → orset.num_buckets ≤ i + 1 → left orset i [] ≡ []
left_last orset i last =
    let none_more : orset.num_buckets - (i + 1) ≡ 0 = omega arith in rw none_more refl

left_skip :
    (orset : OrSet) (i : ℕ) (xs : List Entry) → left orset i (skip_removed xs) ≡ left orset i xs
left_skip orset i xs =
    ap (λ zs. zs ++ keep (chains (drop (i + 1) orset.buckets) (orset.num_buckets - (i + 1))))
      (keep-skip_removed xs).0

left_enter :
    (orset : OrSet) (i : ℕ) → left orset (i + 1) (bucket_or orset (i + 1) []) ≡ left orset i []
left_enter orset i = elim (Bool-cases (ltb (i + 1) orset.num_buckets)) [
  | inl more ↦ rw more (sym (left_next orset i (ground arith)))
  | inr last ↦
      rw last (left_last orset (i + 1) (ground arith) ∙ sym (left_last orset i (ground arith)))
]

bucket_outside : (orset : OrSet) (i : ℕ) → orset.num_buckets ≤ i → bucket_or orset i [] ≡ []
bucket_outside orset i out = ground arith

-- Where a loop over the buckets leaves the iterator.
pub record Stands (orset : OrSet) (before : List Entry) (i : ℕ) (current : List Entry)
    : Type 0 where
  pub same : left orset i current ≡ before
  pub ready : IsReady current
  pub ends : at_end current ≡ true → (before ≡ []) × (orset.num_buckets ≤ i + 1)

pub move :
    (orset : OrSet) {before before' : List Entry}
    → before ≡ before'
    → {i : ℕ} {current : List Entry} → Stands orset before i current
    → Stands orset before' i current
move orset e {i} {current} = subst (λ b. Stands orset b i current) e

-- A chain that starts with an active entry or is at its end: at the end, `rest` goes on.
settle :
    (orset : OrSet) (i : ℕ) (live before : List Entry) (rest : ℕ × List Entry)
    → left orset i live ≡ before
    → IsReady live
    → (live ≡ [] → Stands orset (left orset i []) rest.0 rest.1)
    → let (j, next) = if at_end live then rest else (i, live) in Stands orset before j next
settle orset i [] before rest same ready more =
    subst (λ b. Stands orset b rest.0 rest.1) same (more refl)
settle orset i (x ∷ xs) before rest same ready more = record {
  same = same;
  ready = ready;
  ends = λ e. cc e;
}

at_last :
    (orset : OrSet) (i j : ℕ)
    → orset.num_buckets ≤ i + 1
    → orset.num_buckets ≤ j + 1
    → Stands orset (left orset i []) j []
at_last orset i j here there = record {
  same = left_last orset j there ∙ sym (left_last orset i here);
  ready = tt;
  ends = λ e. (left_last orset i here, there);
}

advance-Stands :
    (fuel : ℕ) (orset : OrSet) (i : ℕ)
    → orset.num_buckets ≤ i + fuel
    → let (j, next) = advance fuel orset i [] in Stands orset (left orset i []) j next
advance-Stands zero orset i enough = at_last orset i i (omega arith) (omega arith)
advance-Stands (suc fuel) orset i enough = elim (Bool-cases (ltb (i + 1) orset.num_buckets)) [
  | inl more ↦
      let chain = get_or orset.buckets (i + 1) [] in
      let ready = (keep-skip_removed chain).1 in
      rw more (
        settle orset (i + 1) (skip_removed chain) (left orset i [])
          (advance fuel orset (i + 1) (skip_removed chain))
          (left_skip orset (i + 1) chain ∙ sym (left_next orset i (ground arith))) ready
          (λ e. rw e (advance-Stands fuel orset (i + 1) (omega arith))))
  | inr last ↦ rw last (at_last orset i (i + 1) (ground arith) (ground arith))
]

pub pass-Stands :
    (orset : OrSet) (i : ℕ) (next : List Entry)
    → let (j, current) = pass orset i next in Stands orset (left orset i next) j current
pass-Stands orset i next =
    let ready = (keep-skip_removed next).1 in
    settle orset i (skip_removed next) (left orset i next)
      (advance orset.num_buckets orset i (skip_removed next)) (left_skip orset i next) ready
      (λ e. rw e (advance-Stands orset.num_buckets orset i (omega arith)))

pub seek-Stands :
    (fuel : ℕ) (orset : OrSet) (i : ℕ) (current : List Entry)
    → orset.num_buckets ≤ i + fuel
    → (orset.num_buckets ≤ i → current ≡ [])
    → let (j, next) = seek fuel orset i current in Stands orset (left orset i current) j next
seek-Stands zero orset i current enough outside =
    rw (outside (omega arith)) (at_last orset i i (omega arith) (omega arith))
seek-Stands (suc fuel) orset i current enough outside =
    elim (Bool-cases (ltb i orset.num_buckets)) [
      | inl more ↦
          let ready = (keep-skip_removed current).1 in
          rw more (
            settle orset i (skip_removed current) (left orset i current)
              (seek fuel orset (i + 1) (bucket_or orset (i + 1) (skip_removed current)))
              (left_skip orset i current) ready
              (λ e. rw e (
                move orset (left_enter orset i) (
                  seek-Stands fuel orset (i + 1) (bucket_or orset (i + 1) []) (omega arith)
                    (bucket_outside orset (i + 1))))))
      | inr last ↦
          rw (last, outside (ground arith)) (at_last orset i i (ground arith) (ground arith))
    ]
