-- ===== src/OrSet/Status.antt =====
-- What an OR-Set knows of a tag: nothing, an addition, or its removal, in this order.
use mathlib.Core.Option.{some-injective}
use cauchy.Prelude.{
  ℕ, ◌+◌, ◌%◌, ◌≤◌, ◌<◌, ◌≡◌, refl, sym, ap, ◌∙◌, max, true, false, ◌&&◌, none, some, List, [], ◌∷◌,
  ◌++◌, ◌==◌, length, get_or, if◌then◌else◌, arith, Bool-cases, inl, inr, and_true, ==_refl, ==_iff,
}
use cauchy.Types.{Uid, uid_equals}
use cauchy.Chains.{chains_only}
use cauchy.OrSet.{OrSet, Entry}
use cauchy.OrSet.Merge.{tagged, find_by_tag, bury_tag, chain_at, entries}

abbrev pub flag : Entry → ℕ
flag entry = if entry.removed then 2 else 1

abbrev pub share : ℕ → Uid → Entry → ℕ
share h t entry = if tagged h t entry then flag entry else 0

-- 0: no entry with this hash and tag; 1: an active one; 2: a tombstone.
abbrev pub status : ℕ → Uid → List Entry → ℕ
status h t [] = 0
status h t (entry ∷ next) = max (share h t entry) (status h t next)

-- Tests on tags decide equality.
pub uid_equals_sound : (a b : Uid) → uid_equals a b ≡ true → a ≡ b
unfolding uid_equals
uid_equals_sound a b h i = record { node_id = nodes i; timestamp = stamps i }
  where
    nodes : a.node_id ≡ b.node_id
    nodes = ground arith

    stamps : a.timestamp ≡ b.timestamp
    stamps = ground arith

pub uid_equals_refl : (a : Uid) → uid_equals a a ≡ true
unfolding uid_equals
uid_equals_refl a = rw (==_refl a.node_id, ==_refl a.timestamp)

pub tagged_sound : (h : ℕ) (t : Uid) (e : Entry) → tagged h t e ≡ true → (e.hash ≡ h) × (e.tag ≡ t)
tagged_sound h t e hit =
    let both = and_true (e.hash == h) (uid_equals e.tag t) hit in
    ((==_iff e.hash h).0 both.0, uid_equals_sound e.tag t both.1)

-- How many entries have this hash and tag.
abbrev pub tags : ℕ → Uid → List Entry → ℕ
tags h t [] = 0
tags h t (entry ∷ next) = (if tagged h t entry then 1 else 0) + tags h t next

-- A table with as many buckets as it says, at least one; each entry stands in the bucket of its
-- hash, and no two have the same tag.
pub record IsTable (orset : OrSet) : Type 0 where
  pub width : length orset.buckets ≡ orset.num_buckets
  pub some_bucket : 0 < orset.num_buckets
  pub placed :
      (i h : ℕ) (t : Uid)
      → tags h t (get_or orset.buckets i []) ≤ (if h % orset.num_buckets == i then 1 else 0)

-- What the set shows of a hash and a tag.
abbrev pub status_of : OrSet → ℕ → Uid → ℕ
status_of orset h t = status h t (chain_at orset h)

pub chain_few : (orset : OrSet) (h : ℕ) (t : Uid) → IsTable orset → tags h t (chain_at orset h) ≤ 1
chain_few orset h t table =
    omega
      (arith, rw (==_refl (h % orset.num_buckets)) at (table.placed (h % orset.num_buckets) h t))

pub status-append :
    (h : ℕ) (t : Uid) (xs ys : List Entry)
    → status h t (xs ++ ys) ≡ max (status h t xs) (status h t ys)
status-append h t [] ys = omega arith
status-append h t (x ∷ xs) ys = omega (arith, status-append h t xs ys)

pub status-none : (h : ℕ) (t : Uid) (xs : List Entry) → tags h t xs ≡ 0 → status h t xs ≡ 0
status-none h t [] e = refl
status-none h t (x ∷ xs) e = ground (arith, status-none h t xs)

pub status-le : (h : ℕ) (t : Uid) (xs : List Entry) → status h t xs ≤ 2
status-le h t [] = omega arith
status-le h t (x ∷ xs) = ground (arith, status-le h t xs)

-- Over all entries of a table, in the order of the loops.
pub status-entries :
    (orset : OrSet) (h : ℕ) (t : Uid)
    → IsTable orset
    → status h t (entries orset) ≡ status_of orset h t
status-entries orset h t table =
    chains_only (status h t) 0 max refl (status-append h t) (λ x. (omega arith, omega arith))
      orset.buckets orset.num_buckets (h % orset.num_buckets) (omega (arith, table.some_bucket))
      (λ i ne. status-none h t (get_or orset.buckets i []) (ground (arith, table.placed i h t)))

pub find_by_tag-none :
    (h : ℕ) (t : Uid) (xs : List Entry) → find_by_tag h t xs ≡ none → tags h t xs ≡ 0
unfolding find_by_tag
find_by_tag-none h t [] e = refl
find_by_tag-none h t (x ∷ xs) e = elim (Bool-cases (tagged h t x)) [
  | inl hit ↦ absurd (ground arith)
  | inr miss ↦ ground (arith, find_by_tag-none h t xs)
]

pub find_by_tag-some :
    (h : ℕ) (t : Uid) (xs : List Entry) (e : Entry)
    → find_by_tag h t xs ≡ some e
    → tags h t xs ≤ 1
    → (status h t xs ≡ flag e) × (tags h t xs ≡ 1)
unfolding find_by_tag
find_by_tag-some h t [] e run few = absurd (ground arith)
find_by_tag-some h t (x ∷ xs) e run few = elim (Bool-cases (tagged h t x)) [
  | inl hit ↦
      let head : find_by_tag h t (x ∷ xs) ≡ some x = rw hit in
      let flags = ap flag (some-injective x e (sym head ∙ run)) in
      let rest = status-none h t xs in
      let lone : tags h t xs ≡ 0 = ground arith in (ground (arith, flags, rest lone), ground arith)
  | inr miss ↦
      let next : find_by_tag h t xs ≡ some e = ground arith in
      let (seen, one) = find_by_tag-some h t xs e next (ground arith) in
      (ground (arith, seen), ground (arith, one))
]

pub tags-bury_tag :
    (h h' : ℕ) (t t' : Uid) (xs : List Entry) → tags h' t' (bury_tag h t xs) ≡ tags h' t' xs
unfolding bury_tag
tags-bury_tag h h' t t' [] = refl
tags-bury_tag h h' t t' (x ∷ xs) = elim (Bool-cases (tagged h t x)) [
  | inl hit ↦ rw hit
  | inr miss ↦ rw miss (omega (arith, tags-bury_tag h h' t t' xs))
]

pub status-bury_tag_other :
    (h h' : ℕ) (t t' : Uid) (xs : List Entry)
    → (h' == h && uid_equals t' t) ≡ false
    → status h' t' (bury_tag h t xs) ≡ status h' t' xs
unfolding bury_tag uid_equals
status-bury_tag_other h h' t t' [] ne = refl
status-bury_tag_other h h' t t' (x ∷ xs) ne = elim (Bool-cases (tagged h t x)) [
  | inl hit ↦ rw hit (ground arith)
  | inr miss ↦ rw miss (omega (arith, status-bury_tag_other h h' t t' xs ne))
]

pub status-bury_tag :
    (h : ℕ) (t : Uid) (xs : List Entry) → tags h t xs ≡ 1 → status h t (bury_tag h t xs) ≡ 2
unfolding bury_tag
status-bury_tag h t [] one = absurd (omega arith)
status-bury_tag h t (x ∷ xs) one = elim (Bool-cases (tagged h t x)) [
  | inl hit ↦ rw hit (ground (arith, status-le h t xs))
  | inr miss ↦ let rest = status-bury_tag h t xs (ground arith) in rw miss (ground (arith, rest))
]
