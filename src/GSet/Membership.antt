-- ===== src/GSet/Membership.antt =====
-- What an addition does to membership.
use cauchy.Prelude.{
  ℕ, ◌+◌, ◌%◌, ◌<◌, ◌≡◌, refl, sym, ap, ◌∙◌, true, false, some, List, [], ◌∷◌, ◌==◌, length, get_or,
  set, take, get_or-set, length-set, list_eq_refl, ==_refl, if◌then◌else◌, arith, Bool-cases, inl,
  inr, take-take,
}
use cauchy.Types.{ok, err_nomem}
use cauchy.Cells.{u64_mod}
use cauchy.GSet.{
  GSet, Elem, Grant, granted, no_data, no_node, hash_data, matches, found, add, contains,
}

-- A table with as many buckets as it says, and at least one.
pub record IsTable (gset : GSet) : Type 0 where
  pub width : length gset.buckets ≡ gset.num_buckets
  pub some_bucket : 0 < gset.num_buckets

-- The element that is put in, and the set with it.
abbrev pub elem_of : List ℕ → ℕ → Elem
elem_of bytes size = record { bytes = take size bytes; size = size; hash = hash_data bytes size }

abbrev pub bucket : GSet → List ℕ → ℕ → ℕ
bucket gset bytes size = hash_data bytes size % gset.num_buckets

abbrev pub chain : GSet → List ℕ → ℕ → List Elem
chain gset bytes size = get_or gset.buckets (bucket gset bytes size) []

abbrev pub with_elem : GSet → List ℕ → ℕ → GSet
with_elem gset bytes size = record gset {
  buckets = set gset.buckets (bucket gset bytes size) (elem_of bytes size ∷ chain gset bytes size);
  count = (gset.count + 1) % u64_mod;
}

matches_self :
    (bytes : List ℕ) (size : ℕ)
    → matches (hash_data bytes size) bytes size (elem_of bytes size) ≡ true
matches_self bytes size =
    rw (==_refl (hash_data bytes size), ==_refl size, take-take size bytes)
      (list_eq_refl (take size bytes))

pub contains-found :
    (gset : GSet) (bytes : List ℕ) (size : ℕ)
    → 0 < size
    → contains (some gset) (some bytes) size
      ≡ found (hash_data bytes size) bytes size (chain gset bytes size)
unfolding contains
contains-found gset bytes size h = let used : (size == 0) ≡ false = ground arith in rw used

pub chain-with_elem :
    (gset : GSet) (bytes other : List ℕ) (size size' : ℕ)
    → IsTable gset
    → chain (with_elem gset bytes size) other size' ≡ (
        if bucket gset other size' == bucket gset bytes size
        then elem_of bytes size ∷ chain gset bytes size
        else chain gset other size')
chain-with_elem gset bytes other size size' t =
    get_or-set gset.buckets (bucket gset bytes size) (bucket gset other size')
      (elem_of bytes size ∷ chain gset bytes size) [] (omega (arith, t.width, t.some_bucket))

found-cons :
    (h : ℕ) (bytes : List ℕ) (size : ℕ) (elem : Elem) (rest : List Elem)
    → found h bytes size rest ≡ true
    → found h bytes size (elem ∷ rest) ≡ true
found-cons h bytes size elem rest held = elim (Bool-cases (matches h bytes size elem)) [
  | inl same ↦ rw same
  | inr other ↦ rw (other, held)
]

pub with_elem-IsTable :
    (gset : GSet) (bytes : List ℕ) (size : ℕ) → IsTable gset → IsTable (with_elem gset bytes size)
with_elem-IsTable gset bytes size t = record {
  width = length-set gset.buckets (bucket gset bytes size) _ ∙ t.width;
  some_bucket = t.some_bucket;
}

contains-with_elem :
    (gset : GSet) (bytes : List ℕ) (size : ℕ)
    → IsTable gset
    → 0 < size
    → (contains (some (with_elem gset bytes size)) (some bytes) size ≡ true)
      × ((other : List ℕ) (size' : ℕ)
          → 0 < size'
          → contains (some gset) (some other) size' ≡ true
          → contains (some (with_elem gset bytes size)) (some other) size' ≡ true)
contains-with_elem gset bytes size t any = (
  rw (
    contains-found (with_elem gset bytes size) bytes size any,
    chain-with_elem gset bytes bytes size size t,
    ==_refl (bucket gset bytes size),
    matches_self bytes size,
  ),
  λ other size' any' held.
      let had = sym (contains-found gset other size' any') ∙ held in
      elim (Bool-cases (bucket gset other size' == bucket gset bytes size)) [
        | inl same ↦
            let e : bucket gset other size' ≡ bucket gset bytes size = ground arith in
            rw
              (
                contains-found (with_elem gset bytes size) other size' any',
                chain-with_elem gset bytes other size size' t,
                same,
              )
              (found-cons (hash_data other size') other size' (elem_of bytes size)
                (chain gset bytes size)
                (sym (
                    ap (λ k. found (hash_data other size') other size' (get_or gset.buckets k []))
                      e)
                  ∙ had))
        | inr differ ↦
            rw
              (
                contains-found (with_elem gset bytes size) other size' any',
                chain-with_elem gset bytes other size size' t,
                differ,
              )
              had
      ],
)

-- An addition of at least one byte to a well-formed table either finds its element there, and
-- changes nothing; or, where memory was given, puts it in, keeps every other member and counts one
-- more, modulo 2 ^ 64; or, where memory was refused, says so and changes nothing. After an addition
-- with memory the element is a member.
pub gset_add :
    (gset : GSet) (bytes : List ℕ) (size : ℕ)
    → IsTable gset
    → 0 < size
    → (contains (some gset) (some bytes) size ≡ true
        → (grant : Grant) → add grant (some gset) (some bytes) size ≡ (ok, some gset))
      × (contains (some gset) (some bytes) size ≡ false
          → (add no_node (some gset) (some bytes) size ≡ (err_nomem, some gset))
            × (add no_data (some gset) (some bytes) size ≡ (err_nomem, some gset))
            × ((new : GSet) × (add granted (some gset) (some bytes) size ≡ (ok, some new))
                × IsTable new
                × (new.count ≡ (gset.count + 1) % u64_mod)
                × (contains (some new) (some bytes) size ≡ true)
                × ((other : List ℕ) (size' : ℕ)
                    → 0 < size'
                    → contains (some gset) (some other) size' ≡ true
                    → contains (some new) (some other) size' ≡ true)))
unfolding add
gset_add gset bytes size t any =
    let used : (size == 0) ≡ false = ground arith in
    let is = contains-found gset bytes size any in
    (
      λ old grant. rw (used, sym is ∙ old),
      λ new.
          let absent = sym is ∙ new in
          let (own, others) = contains-with_elem gset bytes size t any in
          (
            rw (used, absent),
            rw (used, absent),
            (
              with_elem gset bytes size,
              rw (used, absent),
              with_elem-IsTable gset bytes size t,
              refl,
              own,
              others,
            ),
          ),
    )
