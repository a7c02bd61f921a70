-- ===== src/OrSet/Same.antt =====
-- Two OR-Sets that know the same of every tag are the same to the tests of or_set.c, where their
-- counters are exact.
use cauchy.Prelude.{
  ℕ, ◌≤◌, ◌≡◌, refl, sym, ap, ◌∙◌, true, false, Option, some, List, [], ◌∷◌, length, arith,
  Bool-cases, Bool_ext, inl, inr, ==_refl,
}
use cauchy.Types.{Uid}
use cauchy.OrSet.{OrSet, Entry, contains, count}
use cauchy.OrSet.Merge.{tagged, entries, all_in, equals}
use cauchy.OrSet.Status.{
  status, tags, status_of, status-entries, status-none, tagged_sound, uid_equals_refl,
}
use cauchy.OrSet.Content.{Agrees, IsWritten, same_status-contains}
use cauchy.OrSet.Replicas.{chains-Agrees}
use cauchy.OrSet.Counts.{IsCounted}
use cauchy.OrSet.Counts.Live.{entries_few, same_status-active}

module _ (written : Uid → List ℕ) (b : Option OrSet) where
  -- What an active tag put in is a member of `b`.
  abbrev AllKnown : List Entry → Type 0
  AllKnown xs =
      (h : ℕ) (t : Uid)
      → status h t xs ≡ 1
      → contains b (some (written t)) (length (written t)) ≡ true

  all_in-AllKnown : (xs : List Entry) → Agrees written xs → all_in b xs ≡ true → AllKnown xs
  all_in-AllKnown [] agrees all h t on = absurd (cc on)
  all_in-AllKnown (e ∷ xs) agrees all h t on = elim (Bool-cases (tagged h t e)) [
    | inl hit ↦ elim (Bool-cases e.removed) [
      | inl gone ↦ absurd (ground (arith, on))
      | inr live ↦
          let there : contains b (some e.bytes) e.size ≡ true = ground arith in
          let bytes : e.bytes ≡ written t = agrees.0.0 ∙ ap written (tagged_sound h t e hit).1 in
          let size : e.size ≡ length (written t) = agrees.0.1 ∙ ap length bytes in
          rw (sym size, sym bytes) there
    ]
    | inr miss ↦ all_in-AllKnown xs agrees.1 (ground arith) h t (ground (arith, on))
  ]

  AllKnown-all_in :
      (xs : List Entry)
      → Agrees written xs
      → ((h : ℕ) (t : Uid) → tags h t xs ≤ 1)
      → AllKnown xs
      → all_in b xs ≡ true
  AllKnown-all_in [] agrees few known = refl
  AllKnown-all_in (e ∷ xs) agrees few known =
      let rest = AllKnown-all_in xs agrees.1 (λ h t. ground (arith, few h t)) later in
      elim (Bool-cases e.removed) [ inl gone ↦ rw gone rest | inr live ↦ rw (live, here live) rest ]
    where
      own : tagged e.hash e.tag e ≡ true
      own = rw (==_refl e.hash, uid_equals_refl e.tag)

      here : e.removed ≡ false → contains b (some e.bytes) e.size ≡ true
      here live =
          let none_more = status-none e.hash e.tag xs (ground (arith, few e.hash e.tag, own)) in
          let on : status e.hash e.tag (e ∷ xs) ≡ 1 = rw (own, none_more, live) (omega arith) in
          let size = agrees.0.1 ∙ ap length agrees.0.0 in
          rw (size, agrees.0.0) (known e.hash e.tag on)

      later : AllKnown xs
      later h t on = elim (Bool-cases (tagged h t e)) [
        | inl hit ↦
            let none_more = status-none h t xs (ground (arith, few h t)) in
            absurd (ground (arith, none_more))
        | inr miss ↦
            let same : status h t (e ∷ xs) ≡ status h t xs = rw miss (omega arith) in
            known h t (same ∙ on)
      ]

module _ (written : Uid → List ℕ) (x y : OrSet) (x_ok : IsWritten written x)
    (y_ok : IsWritten written y)
    (same : (h : ℕ) (t : Uid) → status_of x h t ≡ status_of y h t) where
  same_entries : (h : ℕ) (t : Uid) → status h t (entries x) ≡ status h t (entries y)
  same_entries h t =
      status-entries x h t x_ok.table ∙ same h t ∙ sym (status-entries y h t y_ok.table)

  pub same_status-count : IsCounted x → IsCounted y → count (some x) ≡ count (some y)
  unfolding count
  same_status-count cx cy =
      cx.live
      ∙ same_status-active (entries x) (entries y) (λ h t. entries_few x h t x_ok.table)
          (λ h t. entries_few y h t y_ok.table) same_entries
      ∙ sym cy.live

  all_in_mono :
      (z : OrSet) → all_in (some z) (entries x) ≡ true → all_in (some z) (entries y) ≡ true
  all_in_mono z all =
      let known =
        all_in-AllKnown written (some z) (entries x)
          (chains-Agrees written x.buckets x.num_buckets x_ok.agrees) all in
      AllKnown-all_in written (some z) (entries y)
        (chains-Agrees written y.buckets y.num_buckets y_ok.agrees)
        (λ h t. entries_few y h t y_ok.table) (λ h t on. known h t (same_entries h t ∙ on))

all_in_congr :
    (x y : OrSet) (xs : List Entry)
    → ((bytes : List ℕ) (size : ℕ)
        → contains (some x) (some bytes) size ≡ contains (some y) (some bytes) size)
    → all_in (some x) xs ≡ all_in (some y) xs
all_in_congr x y [] members = refl
all_in_congr x y (e ∷ xs) members = rw (members e.bytes e.size, all_in_congr x y xs members) refl

-- No other set tells them apart, on either side of `equals`.
pub same_status-equals :
    (written : Uid → List ℕ) (x y z : OrSet)
    → IsWritten written x
    → IsWritten written y
    → IsCounted x
    → IsCounted y
    → ((h : ℕ) (t : Uid) → status_of x h t ≡ status_of y h t)
    → (equals (some z) (some x) ≡ equals (some z) (some y))
      × (equals (some x) (some z) ≡ equals (some y) (some z))
unfolding equals count
same_status-equals written x y z x_ok y_ok cx cy same =
    let back = λ (h : ℕ) (t : Uid). sym (same h t) in
    let number : x.active_count ≡ y.active_count =
      same_status-count written x y x_ok y_ok same cx cy in
    let members : (bytes : List ℕ) (size : ℕ)
        → contains (some x) (some bytes) size ≡ contains (some y) (some bytes) size =
      λ bytes size.
        Bool_ext _ _ (same_status-contains written x y bytes size x_ok y_ok same)
          (same_status-contains written y x bytes size y_ok x_ok back) in
    let left = all_in_congr x y (entries z) members in
    let right =
      Bool_ext _ _ (all_in_mono written x y x_ok y_ok same z)
        (all_in_mono written y x y_ok x_ok back z) in
    (rw (left, number) refl, rw (right, number) refl)
