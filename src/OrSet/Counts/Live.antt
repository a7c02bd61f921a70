-- ===== src/OrSet/Counts/Live.antt =====
-- How many entries of an OR-Set are active is a matter of what it knows of the tags.
use cauchy.Prelude.{
  ℕ, ◌+◌, ◌%◌, ◌≤◌, ◌≡◌, refl, sym, ◌∙◌, true, false, ◌&&◌, List, [], ◌∷◌, ◌++◌, ◌==◌,
  if◌then◌else◌, arith, Bool-cases, inl, inr, ==_refl, ==_iff,
}
use cauchy.Types.{Uid, uid_equals}
use cauchy.Chains.{chains_only}
use cauchy.OrSet.{OrSet, Entry}
use cauchy.OrSet.Merge.{tagged, entries}
use cauchy.OrSet.Status.{
  status, tags, flag, IsTable, chain_few, status-none, tagged_sound, uid_equals_refl,
}
use cauchy.OrSet.Counts.{active}

-- Without the first entry with this hash and tag.
drop_tag : ℕ → Uid → List Entry → List Entry
drop_tag h t [] = []
drop_tag h t (x ∷ xs) = let rest = drop_tag h t xs in if tagged h t x then xs else x ∷ rest

tags-drop_tag :
    (h h' : ℕ) (t t' : Uid) (xs : List Entry) → tags h' t' (drop_tag h t xs) ≤ tags h' t' xs
unfolding drop_tag
tags-drop_tag h h' t t' [] = omega arith
tags-drop_tag h h' t t' (x ∷ xs) = elim (Bool-cases (tagged h t x)) [
  | inl hit ↦ rw hit (omega arith)
  | inr miss ↦ rw miss (omega (arith, tags-drop_tag h h' t t' xs))
]

-- The tag itself is gone.
tags-drop_tag_same :
    (h : ℕ) (t : Uid) (xs : List Entry) → tags h t xs ≤ 1 → tags h t (drop_tag h t xs) ≡ 0
unfolding drop_tag
tags-drop_tag_same h t [] few = refl
tags-drop_tag_same h t (x ∷ xs) few = elim (Bool-cases (tagged h t x)) [
  | inl hit ↦ rw hit (ground arith)
  | inr miss ↦ let rest = tags-drop_tag_same h t xs (ground arith) in rw miss (ground (arith, rest))
]

tagged-apart :
    (h h' : ℕ) (t t' : Uid) (x : Entry)
    → (h == h' && uid_equals t t') ≡ false
    → tagged h t x ≡ true
    → tagged h' t' x ≡ false
tagged-apart h h' t t' x apart hit =
    let (hash, tag) = tagged_sound h t x hit in rw (hash, tag) apart

status-drop_tag :
    (h h' : ℕ) (t t' : Uid) (xs : List Entry)
    → (h == h' && uid_equals t t') ≡ false
    → status h' t' (drop_tag h t xs) ≡ status h' t' xs
unfolding drop_tag
status-drop_tag h h' t t' [] apart = refl
status-drop_tag h h' t t' (x ∷ xs) apart = elim (Bool-cases (tagged h t x)) [
  | inl hit ↦ rw (hit, tagged-apart h h' t t' x apart hit) (omega arith)
  | inr miss ↦ rw miss (omega (arith, status-drop_tag h h' t t' xs apart))
]

active-drop_tag :
    (h : ℕ) (t : Uid) (xs : List Entry)
    → tags h t xs ≡ 1
    → active xs ≡ (if status h t xs == 1 then 1 else 0) + active (drop_tag h t xs)
unfolding drop_tag
active-drop_tag h t [] one = absurd (omega arith)
active-drop_tag h t (x ∷ xs) one = elim (Bool-cases (tagged h t x)) [
  | inl hit ↦
      let none_more = status-none h t xs (ground arith) in
      rw (hit, none_more)
        (elim (Bool-cases x.removed) [
          | inl gone ↦ rw gone (omega arith)
          | inr live ↦ rw live (omega arith)
        ])
  | inr miss ↦ let rest = active-drop_tag h t xs (ground arith) in rw miss (grind (arith, rest))
]

head_known : (x : Entry) (xs : List Entry) → flag x ≤ status x.hash x.tag (x ∷ xs)
head_known x xs = rw (==_refl x.hash, uid_equals_refl x.tag) (omega arith)

none_known : (xs : List Entry) → ((h : ℕ) (t : Uid) → status h t xs ≡ 0) → active xs ≡ 0
none_known [] zeros = refl
none_known (x ∷ xs) zeros =
    let e = zeros x.hash x.tag in let some_flag = head_known x xs in absurd (ground (arith, e))

-- Two lists in which no tag is twice, and that know the same of every tag, have equally many active
-- entries.
pub same_status-active :
    (xs ys : List Entry)
    → ((h : ℕ) (t : Uid) → tags h t xs ≤ 1)
    → ((h : ℕ) (t : Uid) → tags h t ys ≤ 1)
    → ((h : ℕ) (t : Uid) → status h t xs ≡ status h t ys)
    → active xs ≡ active ys
same_status-active [] ys few few' same = sym (none_known ys (λ h t. sym (same h t)))
same_status-active (x ∷ xs) ys few few' same =
    let here : tagged x.hash x.tag x ≡ true = rw (==_refl x.hash, uid_equals_refl x.tag) in
    let lone : tags x.hash x.tag xs ≡ 0 = ground (arith, few x.hash x.tag) in
    let none_more = status-none x.hash x.tag xs lone in
    let flags : status x.hash x.tag (x ∷ xs) ≡ flag x = rw (here, none_more) (omega arith) in
    let theirs = sym (same x.hash x.tag) ∙ flags in
    let one : tags x.hash x.tag ys ≡ 1 = elim (Bool-cases (tags x.hash x.tag ys == 0)) [
      | inl none_there ↦
          let e = status-none x.hash x.tag ys ((==_iff _ _).0 none_there) in
          absurd (ground (arith, e, theirs))
      | inr some_there ↦ ground (arith, few' x.hash x.tag)
    ] in
    let rest =
      same_status-active xs (drop_tag x.hash x.tag ys) (λ h t. ground (arith, few h t))
        (λ h t. omega (arith, tags-drop_tag x.hash h x.tag t ys, few' h t))
        (λ h t. elim (Bool-cases (tagged h t x)) [
          | inl hit ↦
              let (hash, tag) = tagged_sound h t x hit in
              let gone = tags-drop_tag_same x.hash x.tag ys (few' x.hash x.tag) in
              let both =
                none_more ∙ sym (status-none x.hash x.tag (drop_tag x.hash x.tag ys) gone) in
              rw (sym hash, sym tag) both
          | inr apart ↦
              let kept = status-drop_tag x.hash h x.tag t ys apart in
              let more : status h t (x ∷ xs) ≡ status h t xs = rw apart (omega arith) in
              sym more ∙ same h t ∙ sym kept
        ]) in
    let theirs_live = active-drop_tag x.hash x.tag ys one in
    rw (theirs_live, theirs) (ground (arith, rest))

tags-append :
    (h : ℕ) (t : Uid) (xs ys : List Entry) → tags h t (xs ++ ys) ≡ tags h t xs + tags h t ys
tags-append h t [] ys = omega arith
tags-append h t (x ∷ xs) ys = omega (arith, tags-append h t xs ys)

-- Over all entries of a table, no tag is twice.
pub entries_few : (orset : OrSet) (h : ℕ) (t : Uid) → IsTable orset → tags h t (entries orset) ≤ 1
entries_few orset h t table =
    let only =
      chains_only (tags h t) 0 ◌+◌ refl (tags-append h t) (λ x. (omega arith, omega arith))
        orset.buckets orset.num_buckets (h % orset.num_buckets) (omega (arith, table.some_bucket))
        (λ i ne. ground (arith, table.placed i h t)) in
    omega (arith, only, chain_few orset h t table)
