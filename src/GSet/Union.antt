-- ===== src/GSet/Union.antt =====
-- Membership in a well-formed table, as membership in the list of its elements.
use cauchy.Prelude.{
  ℕ, ◌%◌, ◌<◌, ◌≡◌, ◌≢◌, refl, sym, ap, ◌∙◌, subst, Bool, true, false, ◌||◌, some, List, [], ◌∷◌,
  ◌++◌, ◌==◌, get_or, take, take-take, list_eq_iff, arith, Bool-cases, inl, inr, ==_iff, and_true,
}
use cauchy.Chains.{chains_only}
use cauchy.GSet.{GSet, Elem, hash_data, matches, found, contains, elements}
use cauchy.GSet.Membership.{IsTable, elem_of, bucket, chain, contains-found}

-- Every element of the `i`-th chain has at least one byte, and the hash of its bytes, whose bucket
-- this is.
abbrev pub Placed : ℕ → ℕ → List Elem → Type 0
Placed n i [] = Unit
Placed n i (e ∷ next) =
    ((e.hash ≡ hash_data e.bytes e.size) × (e.hash % n ≡ i) × (0 < e.size)) × Placed n i next

pub record IsPlaced (gset : GSet) : Type 0 where
  pub table : IsTable gset
  pub placed : (i : ℕ) → Placed gset.num_buckets i (get_or gset.buckets i [])

-- Membership in a list of elements, of any hash.
abbrev pub member : List ℕ → ℕ → List Elem → Bool
member bytes size elems = found (hash_data bytes size) bytes size elems

pub or_false : (b : Bool) → (b || false) ≡ b
or_false true = refl
or_false false = refl

pub found-append :
    (h : ℕ) (bytes : List ℕ) (size : ℕ) (xs ys : List Elem)
    → found h bytes size (xs ++ ys) ≡ (found h bytes size xs || found h bytes size ys)
found-append h bytes size [] ys = refl
found-append h bytes size (x ∷ xs) ys =
    let rest = found-append h bytes size xs ys in ground (arith, rest)

found_elsewhere :
    (n i h : ℕ) (bytes : List ℕ) (size : ℕ) (xs : List Elem)
    → Placed n i xs
    → h % n ≢ i
    → found h bytes size xs ≡ false
found_elsewhere n i h bytes size [] placed other = refl
found_elsewhere n i h bytes size (x ∷ xs) placed other =
    elim (Bool-cases (matches h bytes size x)) [
      | inl hit ↦
          let hash = (==_iff x.hash h).0 (and_true (x.hash == h) _ hit).0 in
          absurd (other (ap (λ k. k % n) (sym hash) ∙ placed.0.1))
      | inr miss ↦ rw (miss, found_elsewhere n i h bytes size xs placed.1 other)
    ]

-- A set contains what its table holds, in any bucket.
pub contains-member :
    (gset : GSet) (bytes : List ℕ) (size : ℕ)
    → IsPlaced gset
    → 0 < size
    → contains (some gset) (some bytes) size ≡ member bytes size (elements gset)
contains-member gset bytes size s any =
    contains-found gset bytes size any
    ∙ sym (
        chains_only (member bytes size) false ◌||◌ refl
          (found-append (hash_data bytes size) bytes size) (λ x. (refl, or_false x)) gset.buckets
          gset.num_buckets (bucket gset bytes size) (omega (arith, s.table.some_bucket))
          (λ i ne.
            found_elsewhere gset.num_buckets i (hash_data bytes size) bytes size _ (s.placed i)
              (λ e. ne (sym e))))

found-take :
    (h : ℕ) (bytes other : List ℕ) (size : ℕ) (xs : List Elem)
    → take size bytes ≡ take size other
    → found h bytes size xs ≡ found h other size xs
found-take h bytes other size [] e = refl
found-take h bytes other size (x ∷ xs) e = rw (e, found-take h bytes other size xs e)

-- A match has the hash, the size and the bytes of what is looked for.
pub matches_sound :
    (h : ℕ) (bytes : List ℕ) (size : ℕ) (e : Elem)
    → matches h bytes size e ≡ true
    → (e.hash ≡ h) × (e.size ≡ size) × (take size e.bytes ≡ take size bytes)
matches_sound h bytes size e hit =
    let (hash, p) = and_true (e.hash == h) _ hit in
    let (long, same) = and_true (e.size == size) _ p in
    (
      (==_iff e.hash h).0 hash,
      (==_iff e.size size).0 long,
      (list_eq_iff (take size e.bytes) (take size bytes)).0 same,
    )

-- The copy of an element that an addition makes matches what the element matches.
pub matches-copy :
    (h : ℕ) (bytes : List ℕ) (size : ℕ) (e : Elem)
    → e.hash ≡ hash_data e.bytes e.size
    → matches h bytes size (elem_of e.bytes e.size) ≡ matches h bytes size e
matches-copy h bytes size e hashed = elim (Bool-cases (e.size == size)) [
  | inl long ↦
      let same : take size (take e.size e.bytes) ≡ take size e.bytes =
        subst (λ k. take k (take e.size e.bytes) ≡ take k e.bytes) ((==_iff e.size size).0 long)
          (take-take e.size e.bytes) in
      rw (same, hashed)
  | inr short ↦ rw (short, hashed)
]

-- What is a member already matches nothing new.
module _ (gset : GSet) (e : Elem) (hashed : e.hash ≡ hash_data e.bytes e.size) where
  pub known_match :
      (bytes : List ℕ) (size : ℕ)
      → 0 < size
      → 0 < e.size
      → contains (some gset) (some e.bytes) e.size ≡ true
      → matches (hash_data bytes size) bytes size e ≡ true
      → contains (some gset) (some bytes) size ≡ true
  known_match bytes size any any' known hit =
      let (hash, long, same) = matches_sound (hash_data bytes size) bytes size e hit in
      let in_e : found (hash_data e.bytes e.size) e.bytes e.size (chain gset e.bytes e.size)
          ≡ true =
        sym (contains-found gset e.bytes e.size any') ∙ known in
      let in_h : found (hash_data bytes size) e.bytes e.size (chain gset bytes size) ≡ true =
        subst (λ h. found h e.bytes e.size (get_or gset.buckets (h % gset.num_buckets) []) ≡ true)
          (sym hashed ∙ hash) in_e in
      let in_size : found (hash_data bytes size) e.bytes size (chain gset bytes size) ≡ true =
        subst (λ k. found (hash_data bytes size) e.bytes k (chain gset bytes size) ≡ true) long
          in_h in
      contains-found gset bytes size any
      ∙ sym (found-take (hash_data bytes size) e.bytes bytes size (chain gset bytes size) same)
      ∙ in_size
