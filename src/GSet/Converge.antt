-- ===== src/GSet/Converge.antt =====
-- G-Sets among the replicated types, seen as their members.
use cauchy.Prelude.{
  ℕ, zero, suc, ◌≡◌, sym, ap, ap₂, ◌∙◌, Bool, true, false, ◌||◌, Option, none, some, List, [], ◌∷◌,
  ◌++◌, ◌==◌, get_or, arith, Bool-cases, inl, inr, fun_ext,
}
use cauchy.Types.{Result, ok}
use cauchy.Chains.{chains}
use cauchy.Convergence.{Semilattice, Crdt, SameStates, AllStates, deliver, deliver_converges}
use cauchy.GSet.{GSet, Elem, granted, contains, elements, merge}
use cauchy.GSet.Union.{Placed, IsPlaced, contains-member}
use cauchy.GSet.Replicas.{AllElems, add_all-exact}

-- Which byte strings are members.
abbrev pub Members : Type 0
Members = List ℕ → ℕ → Bool

abbrev pub members : GSet → Members
members gset bytes size = contains (some gset) (some bytes) size

abbrev pub union : Members → Members → Members
union f g bytes size = f bytes size || g bytes size

pub Members_ext :
    (f g : Members) → ((bytes : List ℕ) (size : ℕ) → f bytes size ≡ g bytes size) → f ≡ g
Members_ext f g e = fun_ext (λ bytes. fun_ext (e bytes))

pub union_comm : (f g : Members) → union f g ≡ union g f
union_comm f g = Members_ext _ _ (λ bytes size. ground arith)

pub union_assoc : (f g k : Members) → union (union f g) k ≡ union f (union g k)
union_assoc f g k = Members_ext _ _ (λ bytes size. ground arith)

pub union_idem : (f : Members) → union f f ≡ f
union_idem f = Members_ext _ _ (λ bytes size. ground arith)

abbrev pub unions : Semilattice Members
unions = record {
  join = union;
  join_comm = union_comm;
  join_assoc = union_assoc;
  join_idem = union_idem;
}

AllElems-append : (xs ys : List Elem) → AllElems xs → AllElems ys → AllElems (xs ++ ys)
AllElems-append [] ys hx hy = hy
AllElems-append (x ∷ xs) ys hx hy = (hx.0, AllElems-append xs ys hx.1 hy)

Placed-AllElems : (n i : ℕ) (xs : List Elem) → Placed n i xs → AllElems xs
Placed-AllElems n i [] placed = tt
Placed-AllElems n i (x ∷ xs) placed = ((placed.0.0, placed.0.2), Placed-AllElems n i xs placed.1)

chains-AllElems :
    (bs : List (List Elem)) (n : ℕ) → ((i : ℕ) → AllElems (get_or bs i [])) → AllElems (chains bs n)
chains-AllElems bs zero h = tt
chains-AllElems [] (suc n) h = tt
chains-AllElems (c ∷ bs) (suc n) h =
    AllElems-append c (chains bs n) (h 0) (chains-AllElems bs n (λ i. h (suc i)))

no_bytes :
    (gset : GSet) (bytes : List ℕ) (size : ℕ) → (size == 0) ≡ true → members gset bytes size ≡ false
unfolding contains
no_bytes gset bytes size empty = rw empty

-- A merge with memory succeeds, with the members of either set.
pub gset_union :
    (a b : GSet)
    → IsPlaced a
    → IsPlaced b
    → (c : GSet) × (merge (λ i. granted) (some a) (some b) ≡ (ok, some c))
      × IsPlaced c
      × (members c ≡ union (members a) (members b))
unfolding merge
gset_union a b sa sb =
    let (c, run, c_ok, exact) = add_all-exact 0 a (elements b) sa (
      chains-AllElems b.buckets b.num_buckets
        (λ i. Placed-AllElems b.num_buckets i _ (sb.placed i))) in
    (
      c,
      run,
      c_ok,
      Members_ext _ _ (λ bytes size. elim (Bool-cases (size == 0)) [
        | inl empty ↦
            no_bytes c bytes size empty
            ∙ sym (ap₂ (λ v w. v || w) (no_bytes a bytes size empty) (no_bytes b bytes size empty))
        | inr any ↦
            exact bytes size (ground arith)
            ∙ ap (λ v. members a bytes size || v)
                (sym (contains-member b bytes size sb (ground arith)))
      ]),
    )

abbrev pub succeeded : Result × Option GSet → Option GSet
succeeded (ok, gset) = gset
succeeded (_, gset) = none

pub merge-members :
    (a b : GSet)
    → IsPlaced a
    → IsPlaced b
    → (c : GSet) × (succeeded (merge (λ i. granted) (some a) (some b)) ≡ some c)
      × IsPlaced c
      × (members c ≡ union (members a) (members b))
merge-members a b sa sb =
    let (c, run, c_ok, seen) = gset_union a b sa sb in (c, ap succeeded run, c_ok, seen)

abbrev pub g_sets : Crdt GSet Members
g_sets = record {
  lattice = unions;
  IsState = IsPlaced;
  view = members;
  merge = λ a b. succeeded (merge (λ i. granted) (some a) (some b));
  merge-view = merge-members;
}

-- Two well-formed sets with the same members that merge the same well-formed sets with memory, each
-- in its own order and as often as it likes, end with the same members, however many buckets each has.
pub gset_converges :
    (a b : GSet) (xs ys : List GSet)
    → IsPlaced a
    → IsPlaced b
    → ((bytes : List ℕ) (size : ℕ) → members a bytes size ≡ members b bytes size)
    → AllStates g_sets xs
    → AllStates g_sets ys
    → SameStates g_sets xs ys
    → (c : GSet) × (d : GSet) × (deliver g_sets a xs ≡ some c)
      × (deliver g_sets b ys ≡ some d)
      × ((bytes : List ℕ) (size : ℕ)
          → contains (some c) (some bytes) size ≡ contains (some d) (some bytes) size)
gset_converges a b xs ys sa sb start hx hy same =
    let (c, d, run, run', seen, _, _) =
      deliver_converges g_sets a b xs ys sa sb (Members_ext _ _ start) hx hy same in
    (c, d, run, run', λ bytes size. ap (λ (f : Members). f bytes size) seen)
