-- ===== src/OrSet/Local.antt =====
-- What an addition and a removal at one replica do to the status of the tags.
use cauchy.Prelude.{
  ℕ, ◌+◌, ◌%◌, ◌≤◌, ◌<◌, ◌≡◌, ◌≢◌, refl, sym, ap, ◌∙◌, max, true, false, some, List, [], ◌∷◌, ◌==◌,
  length, take, length-take, arith, Bool-cases, inl, inr,
}
use cauchy.Types.{Uid, ok}
use cauchy.Cells.{u64_mod}
use cauchy.GSet.{granted, hash_data}
use cauchy.OrSet.{OrSet, Entry, entry_of, matches, found, bury, add}
use cauchy.OrSet.Merge.{chain_at}
use cauchy.OrSet.Status.{share, status, tags, status_of}
use cauchy.OrSet.Join.{copied-join}
use cauchy.OrSet.Content.{Agrees, IsWritten, matches_sound}
use cauchy.OrSet.Replicas.{set-Agrees}

pub tags_none : (h : ℕ) (t : Uid) (xs : List Entry) → status h t xs ≡ 0 → tags h t xs ≡ 0
tags_none h t [] e = refl
tags_none h t (x ∷ xs) e = ground (arith, tags_none h t xs)

-- The tag of the next addition.
abbrev pub next_tag : OrSet → Uid
next_tag orset = (entry_of orset [] 0).tag

module _ (written : Uid → List ℕ) where
  -- An addition with memory, under a new tag.
  pub add-status :
      (orset : OrSet) (bytes : List ℕ) (size : ℕ)
      → IsWritten written orset
      → 0 < size
      → size ≤ length bytes
      → written (next_tag orset) ≡ take size bytes
      → status_of orset (hash_data bytes size) (next_tag orset) ≡ 0
      → (c : OrSet) × (add granted (some orset) (some bytes) size ≡ (ok, some c))
        × IsWritten written c
        × ((h : ℕ) (t : Uid)
            → status_of c h t ≡ max (status_of orset h t) (share h t (entry_of orset bytes size)))
  unfolding add
  add-status orset bytes size w any held wrote fresh =
      let used : (size == 0) ≡ false = ground arith in
      let h = hash_data bytes size in
      let (c_table, knows) =
        copied-join orset (entry_of orset bytes size) w.table ((orset.entry_count + 1) % u64_mod)
          ((orset.active_count + 1) % u64_mod) ((orset.timestamp + 1) % u64_mod) (take size bytes)
          (tags_none h (next_tag orset) (chain_at orset h) fresh) in
      (
        _,
        rw used,
        record {
          table = c_table;
          agrees =
              set-Agrees written orset.buckets (h % orset.num_buckets) _
                (omega (arith, w.table.width, w.table.some_bucket)) w.agrees
                ((sym wrote, omega (arith, length-take size bytes)), w.agrees _);
        },
        knows,
      )

-- The loop of `remove` keeps the tags, forgets none, and buries what it looks for.
pub tags-bury :
    (h : ℕ) (bytes : List ℕ) (size k : ℕ) (t : Uid) (xs : List Entry)
    → tags k t (bury h bytes size xs) ≡ tags k t xs
tags-bury h bytes size k t [] = refl
tags-bury h bytes size k t (x ∷ xs) = elim (Bool-cases (matches h bytes size x)) [
  | inl hit ↦ rw hit (omega (arith, tags-bury h bytes size k t xs))
  | inr miss ↦ rw miss (omega (arith, tags-bury h bytes size k t xs))
]

pub status-bury :
    (h : ℕ) (bytes : List ℕ) (size k : ℕ) (t : Uid) (xs : List Entry)
    → (status k t xs ≤ status k t (bury h bytes size xs))
      × (status k t xs ≡ 0 → status k t (bury h bytes size xs) ≡ 0)
status-bury h bytes size k t [] = (omega arith, λ e. refl)
status-bury h bytes size k t (x ∷ xs) =
    let (more, none_new) = status-bury h bytes size k t xs in
    elim (Bool-cases (matches h bytes size x)) [
      | inl hit ↦ rw hit (ground (arith, more), λ e. ground (arith, none_new))
      | inr miss ↦ rw miss (omega (arith, more), λ e. ground (arith, none_new))
    ]

pub found-bury :
    (h : ℕ) (bytes : List ℕ) (size : ℕ) (xs : List Entry)
    → found h bytes size (bury h bytes size xs) ≡ false
found-bury h bytes size [] = refl
found-bury h bytes size (x ∷ xs) = elim (Bool-cases (matches h bytes size x)) [
  | inl hit ↦ rw (hit, found-bury h bytes size xs)
  | inr miss ↦ rw (miss, miss, found-bury h bytes size xs)
]

pub bury-Agrees :
    (written : Uid → List ℕ) (h : ℕ) (bytes : List ℕ) (size : ℕ) (xs : List Entry)
    → Agrees written xs
    → Agrees written (bury h bytes size xs)
bury-Agrees written h bytes size [] agrees = tt
bury-Agrees written h bytes size (x ∷ xs) agrees = elim (Bool-cases (matches h bytes size x)) [
  | inl hit ↦ rw hit (agrees.0, bury-Agrees written h bytes size xs agrees.1)
  | inr miss ↦ rw miss (agrees.0, bury-Agrees written h bytes size xs agrees.1)
]

-- `other` is another byte string than `bytes`.
abbrev pub Differs : List ℕ → ℕ → List ℕ → ℕ → Type 0
Differs other size' bytes size = size' ≡ size → take size' other ≢ take size bytes

-- An entry that `remove` looks for is no match for another byte string.
Differs-miss :
    (h h' : ℕ) (bytes other : List ℕ) (size size' : ℕ) (e : Entry)
    → Differs other size' bytes size
    → matches h bytes size e ≡ true
    → matches h' other size' e ≡ false
Differs-miss h h' bytes other size size' e differs hit =
    elim (Bool-cases (matches h' other size' e)) [
      | inl both ↦
          let (_, _, long, same) = matches_sound h bytes size e hit in
          let (_, _, long', same') = matches_sound h' other size' e both in
          let sizes = sym long' ∙ long in
          absurd (differs sizes (sym same' ∙ ap (λ k. take k e.bytes) sizes ∙ same))
      | inr miss ↦ miss
    ]

pub found-bury_other :
    (h h' : ℕ) (bytes other : List ℕ) (size size' : ℕ) (xs : List Entry)
    → Differs other size' bytes size
    → found h' other size' (bury h bytes size xs) ≡ found h' other size' xs
found-bury_other h h' bytes other size size' [] differs = refl
found-bury_other h h' bytes other size size' (x ∷ xs) differs =
    let rest = found-bury_other h h' bytes other size size' xs differs in
    elim (Bool-cases (matches h bytes size x)) [
      | inl hit ↦ rw (hit, Differs-miss h h' bytes other size size' x differs hit) rest
      | inr miss ↦ rw (miss, rest)
    ]
