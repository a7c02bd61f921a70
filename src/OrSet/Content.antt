-- ===== src/OrSet/Content.antt =====
-- Where a tag belongs to one addition, membership is a matter of the tags' status.
use cauchy.Prelude.{
  ℕ, ◌≤◌, ◌<◌, ◌≡◌, sym, ap, ◌∙◌, true, false, not, some, List, [], ◌∷◌, ◌==◌, length, get_or, take,
  list_eq_iff, and_true, arith, Bool-cases, inl, inr, ==_iff,
}
use cauchy.Types.{Uid}
use cauchy.GSet.{hash_data}
use cauchy.OrSet.{OrSet, Entry, matches, found, contains}
use cauchy.OrSet.Merge.{tagged, chain_at}
use cauchy.OrSet.Status.{
  status, tags, IsTable, status_of, chain_few, status-none, uid_equals_refl, tagged_sound,
}

pub matches_sound :
    (h : ℕ) (bytes : List ℕ) (size : ℕ) (e : Entry)
    → matches h bytes size e ≡ true
    → (e.removed ≡ false) × (e.hash ≡ h) × (e.size ≡ size) × (take size e.bytes ≡ take size bytes)
matches_sound h bytes size e hit =
    let (active, p) = and_true (not e.removed) _ hit in
    let (hash, q) = and_true (e.hash == h) _ p in
    let (long, same) = and_true (e.size == size) _ q in
    (
      ground arith,
      (==_iff e.hash h).0 hash,
      (==_iff e.size size).0 long,
      (list_eq_iff (take size e.bytes) (take size bytes)).0 same,
    )

pub matches_complete :
    (h : ℕ) (bytes : List ℕ) (size : ℕ) (e : Entry)
    → e.removed ≡ false
    → e.hash ≡ h
    → e.size ≡ size
    → take size e.bytes ≡ take size bytes
    → matches h bytes size e ≡ true
matches_complete h bytes size e active hash long same = rw (
  active,
  (==_iff e.hash h).1 hash,
  (==_iff e.size size).1 long,
  (list_eq_iff (take size e.bytes) (take size bytes)).1 same,
)

pub status_pos : (h : ℕ) (t : Uid) (xs : List Entry) → status h t xs ≡ 1 → 0 < tags h t xs
status_pos h t xs active = elim (Bool-cases (tags h t xs == 0)) [
  | inl none_there ↦ let e = status-none h t xs ((==_iff _ _).0 none_there) in omega (arith, e)
  | inr some_there ↦ ground arith
]

-- `written t` is what the addition with tag `t` put in.
module _ (written : Uid → List ℕ) where
  abbrev pub Agrees : List Entry → Type 0
  Agrees [] = Unit
  Agrees (e ∷ next) = ((e.bytes ≡ written e.tag) × (e.size ≡ length e.bytes)) × Agrees next

  -- A well-formed set of entries that all hold what was written under their tags.
  pub record IsWritten (orset : OrSet) : Type 0 where
    pub table : IsTable orset
    pub agrees : (i : ℕ) → Agrees (get_or orset.buckets i [])

  -- A match in a chain is an active tag with these bytes.
  pub found-status :
      (h : ℕ) (bytes : List ℕ) (size : ℕ) (xs : List Entry)
      → Agrees xs
      → ((t : Uid) → tags h t xs ≤ 1)
      → found h bytes size xs ≡ true
      → (t : Uid) × (status h t xs ≡ 1)
        × (size ≡ length (written t))
        × (take size (written t) ≡ take size bytes)
  found-status h bytes size [] ok few hit = absurd (cc hit)
  found-status h bytes size (e ∷ xs) ok few hit = elim (Bool-cases (matches h bytes size e)) [
    | inl here ↦
        let (live, hash, long, same) = matches_sound h bytes size e here in
        let tag : tagged h e.tag e ≡ true = rw ((==_iff e.hash h).1 hash, uid_equals_refl e.tag) in
        let none_more : status h e.tag xs ≡ 0 =
          status-none h e.tag xs (ground (arith, few e.tag)) in
        (
          e.tag,
          rw (tag, live, none_more) (omega arith),
          sym long ∙ ok.0.1 ∙ ap length ok.0.0,
          ap (take size) (sym ok.0.0) ∙ same,
        )
    | inr there ↦
        let (t, active, long, same) =
          found-status h bytes size xs ok.1 (λ t. ground (arith, few t)) (ground arith) in
        (t, ground (arith, few t, status_pos h t xs active), long, same)
  ]

  pub status-found :
      (h : ℕ) (bytes : List ℕ) (size : ℕ) (t : Uid) (xs : List Entry)
      → Agrees xs
      → status h t xs ≡ 1
      → size ≡ length (written t)
      → take size (written t) ≡ take size bytes
      → found h bytes size xs ≡ true
  status-found h bytes size t [] ok active long same = absurd (cc active)
  status-found h bytes size t (e ∷ xs) ok active long same =
      elim (Bool-cases (matches h bytes size e)) [
        | inl here ↦ rw here
        | inr there ↦ rw there (
            status-found h bytes size t xs ok.1
              (elim (Bool-cases (tagged h t e)) [
                | inl tag ↦
                    let (hash, uid) = tagged_sound h t e tag in
                    elim (Bool-cases e.removed) [
                      | inl gone ↦ absurd (ground (arith, active))
                      | inr live ↦ absurd (
                          cc (
                            matches_complete h bytes size e live hash
                              (ok.0.1
                                ∙ ap length ok.0.0
                                ∙ ap (λ u. length (written u)) uid
                                ∙ sym long)
                              (ap (take size) ok.0.0 ∙ ap (λ u. take size (written u)) uid ∙ same)))
                    ]
                | inr other ↦ ground (arith, active)
              ])
              long same)
      ]

  -- Two well-formed sets that know the same of every tag have the same members.
  pub same_status-contains :
      (a b : OrSet) (bytes : List ℕ) (size : ℕ)
      → IsWritten a
      → IsWritten b
      → ((h : ℕ) (t : Uid) → status_of a h t ≡ status_of b h t)
      → contains (some a) (some bytes) size ≡ true
      → contains (some b) (some bytes) size ≡ true
  unfolding contains
  same_status-contains a b bytes size wa wb same hit = elim (Bool-cases (size == 0)) [
    | inl empty ↦ absurd (ground arith)
    | inr any ↦
        let h = hash_data bytes size in
        let in_a : found h bytes size (chain_at a h) ≡ true = ground arith in
        let (t, active, long, content) =
          found-status h bytes size (chain_at a h) (wa.agrees _) (λ t. chain_few a h t wa.table)
            in_a in
        rw any (
          status-found h bytes size t (chain_at b h) (wb.agrees _) (sym (same h t) ∙ active) long
            content)
  ]
