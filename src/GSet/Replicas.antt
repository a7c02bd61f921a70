-- ===== src/GSet/Replicas.antt =====
-- The loop of `merge` of a G-Set, element by element.
use cauchy.Prelude.{
  ℕ, ◌+◌, ◌%◌, ◌<◌, ◌≡◌, refl, sym, ap, ◌∙◌, subst, Bool, true, false, ◌||◌, some, List, [], ◌∷◌,
  ◌==◌, get_or, take, take-take, get_or-set, if◌then◌else◌, arith, Bool-cases, inl, inr, ==_iff,
}
use cauchy.Types.{ok}
use cauchy.GSet.{GSet, Elem, granted, hash_data, hash_step, matches, found, add, contains, add_all}
use cauchy.GSet.Membership.{
  elem_of, bucket, chain, with_elem, contains-found, chain-with_elem, with_elem-IsTable,
}
use cauchy.GSet.Union.{or_false, Placed, IsPlaced, member, known_match, matches-copy, matches_sound}

abbrev pub IsElem : Elem → Type 0
IsElem e = (e.hash ≡ hash_data e.bytes e.size) × (0 < e.size)

hash_data-take :
    (bytes : List ℕ) (size : ℕ) → hash_data (take size bytes) size ≡ hash_data bytes size
unfolding hash_data
hash_data-take bytes size = ap (hash_step 14695981039346656037) (take-take size bytes)

if_or : (a b : Bool) → (if a then true else b) ≡ (b || a)
if_or true true = refl
if_or true false = refl
if_or false true = refl
if_or false false = refl

module _ (gset : GSet) (e : Elem) (s : IsPlaced gset) (e_ok : IsElem e) where
  with_elem-IsPlaced : IsPlaced (with_elem gset e.bytes e.size)
  with_elem-IsPlaced =
      let b = bucket gset e.bytes e.size in
      record {
        table = with_elem-IsTable gset e.bytes e.size s.table;
        placed = λ i.
            rw
              (get_or-set gset.buckets b i (elem_of e.bytes e.size ∷ chain gset e.bytes e.size) []
                (omega (arith, s.table.width, s.table.some_bucket)))
              (elim (Bool-cases (i == b)) [
                | inl here ↦
                    let at_i = sym ((==_iff i b).0 here) in
                    rw here (
                      (sym (hash_data-take e.bytes e.size), at_i, e_ok.1),
                      subst (λ k. Placed gset.num_buckets k (get_or gset.buckets b [])) at_i
                          (s.placed b),
                    )
                | inr there ↦ rw there (s.placed i)
              ]);
      }

  contains-with_elem_iff :
      (bytes : List ℕ) (size : ℕ)
      → 0 < size
      → contains (some (with_elem gset e.bytes e.size)) (some bytes) size
        ≡ (contains (some gset) (some bytes) size || matches (hash_data bytes size) bytes size e)
  contains-with_elem_iff bytes size any =
      let h = hash_data bytes size in
      let copy = matches-copy h bytes size e e_ok.0 in
      rw
        (
          contains-found (with_elem gset e.bytes e.size) bytes size any,
          contains-found gset bytes size any,
          chain-with_elem gset e.bytes bytes e.size size s.table,
        )
        (elim (Bool-cases (bucket gset bytes size == bucket gset e.bytes e.size)) [
          | inl here ↦
              let same =
                ap (λ k. found h bytes size (get_or gset.buckets k [])) ((==_iff _ _).0 here) in
              rw (here, copy, same)
                (if_or (matches h bytes size e) (found h bytes size (chain gset e.bytes e.size)))
          | inr there ↦
              let miss : matches h bytes size e ≡ false =
                elim (Bool-cases (matches h bytes size e)) [
                  | inl hit ↦
                      let (hash, _, _) = matches_sound h bytes size e hit in
                      let same = ap (λ k. k % gset.num_buckets) (sym hash ∙ e_ok.0) in
                      absurd (ground (arith, same))
                  | inr other ↦ other
                ] in
              rw (there, miss) (sym (or_false (found h bytes size (chain gset bytes size))))
        ])

-- Adding an element with memory adds exactly what matches it.
pub add-exact :
    (gset : GSet) (e : Elem)
    → IsPlaced gset
    → IsElem e
    → (c : GSet) × (add granted (some gset) (some e.bytes) e.size ≡ (ok, some c))
      × IsPlaced c
      × ((bytes : List ℕ) (size : ℕ)
          → 0 < size
          → contains (some c) (some bytes) size ≡ (
              contains (some gset) (some bytes) size
              || matches (hash_data bytes size) bytes size e))
unfolding add
add-exact gset e s e_ok =
    let used : (e.size == 0) ≡ false = ground (arith, e_ok.1) in
    let is = contains-found gset e.bytes e.size e_ok.1 in
    elim (Bool-cases (contains (some gset) (some e.bytes) e.size)) [
      | inl known ↦ (
        gset,
        rw (used, sym is ∙ known),
        s,
        λ bytes size any. elim (Bool-cases (matches (hash_data bytes size) bytes size e)) [
          | inl hit ↦
              let old = known_match gset e e_ok.0 bytes size any e_ok.1 known hit in rw (hit, old)
          | inr miss ↦ rw miss (sym (or_false (contains (some gset) (some bytes) size)))
        ],
      )
      | inr new ↦ (
        with_elem gset e.bytes e.size,
        rw (used, sym is ∙ new),
        with_elem-IsPlaced gset e s e_ok,
        contains-with_elem_iff gset e s e_ok,
      )
    ]

abbrev pub AllElems : List Elem → Type 0
AllElems [] = Unit
AllElems (e ∷ next) = IsElem e × AllElems next

pub add_all-exact :
    (k : ℕ) (dst : GSet) (news : List Elem)
    → IsPlaced dst
    → AllElems news
    → (c : GSet) × (add_all (λ i. granted) k (some dst) news ≡ (ok, some c))
      × IsPlaced c
      × ((bytes : List ℕ) (size : ℕ)
          → 0 < size
          → contains (some c) (some bytes) size
            ≡ (contains (some dst) (some bytes) size || member bytes size news))
unfolding add_all
add_all-exact k dst [] s all =
    (dst, refl, s, λ bytes size any. sym (or_false (contains (some dst) (some bytes) size)))
add_all-exact k dst (e ∷ news) s all =
    let (d, run, d_ok, first) = add-exact dst e s all.0 in
    let (c, runs, c_ok, rest) = add_all-exact (k + 1) d news d_ok all.1 in
    (
      c,
      rw run runs,
      c_ok,
      λ bytes size any. ground (arith, first bytes size any, rest bytes size any),
    )
