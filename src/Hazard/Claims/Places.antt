-- ===== src/Hazard/Claims/Places.antt =====
-- What the place of a thread says of the list of records, and which changes leave it true.
use cauchy.Prelude.{
  ℕ, ◌<◌, ◌≡◌, ◌≢◌, refl, sym, ap, ◌∙◌, subst, false, List, [], ◌∷◌, ◌==◌, ==_iff, arith,
  Bool-cases, inl, inr, update,
}
use cauchy.Pool.{Memory, write}
use cauchy.Pool.Blocks.{IsChain, copies}
use cauchy.Hazard.Claims.{Place, outside, scanning, holding, linking, owning}

-- The record that a thread has, 0 for none.
abbrev pub record_of : Place → ℕ
record_of outside = 0
record_of (scanning rec) = 0
record_of (holding rec) = rec
record_of (linking rec old) = rec
record_of (owning rec) = rec

-- What a place says of the list of records: a thread scans records of the list, a record that is
-- held is not in it yet, and one that is owned is.
abbrev pub Placed : Memory → List ℕ → List ℕ → Place → Type 0
Placed next made xs outside = Unit
Placed next made xs (scanning rec) = rec ≢ 0 → copies rec xs ≡ 1
Placed next made xs (holding rec) = (rec ≢ 0) × (0 < copies rec made) × (copies rec xs ≡ 0)
Placed next made xs (linking rec old) =
    (rec ≢ 0) × (0 < copies rec made) × (copies rec xs ≡ 0) × (next rec ≡ old)
Placed next made xs (owning rec) = (rec ≢ 0) × (0 < copies rec made) × (copies rec xs ≡ 1)

abbrev pub Apart : (ℕ → Place) → Type 0
Apart threads =
    (t u : ℕ) → t ≢ u → record_of (threads t) ≢ 0 → record_of (threads t) ≢ record_of (threads u)

not_same : {i j : ℕ} → (i == j) ≡ false → i ≢ j
not_same {i} {j} other e = absurd (cc (other, (==_iff i j).1 e))

-- A thread that keeps its record or gives it up, or gets one that nobody has.
pub update-Apart :
    (threads : ℕ → Place) (t : ℕ) (p : Place)
    → Apart threads
    → ((u : ℕ) → u ≢ t → record_of p ≢ 0 → record_of p ≢ record_of (threads u))
    → Apart (update threads t p)
update-Apart threads t p apart new i j differ some_record same = elim (Bool-cases (i == t)) [
  | inl own ↦ elim (Bool-cases (j == t)) [
    | inl own' ↦ differ ((==_iff i t).0 own ∙ sym ((==_iff j t).0 own'))
    | inr other ↦ new j (not_same other) (rw own at some_record) (rw (own, other) at same)
  ]
  | inr other ↦ elim (Bool-cases (j == t)) [
    | inl own' ↦
        let same' = rw (other, own') at same in
        new i (not_same other) (λ e. (rw other at some_record) (same' ∙ e)) (sym same')
    | inr other' ↦ apart i j differ (rw other at some_record) (rw (other, other') at same)
  ]
]

absent : (x y : ℕ) (xs : List ℕ) → copies x xs ≡ 0 → copies y xs ≡ 1 → (x == y) ≡ false
absent x y xs out there = elim (Bool-cases (x == y)) [
  | inl same ↦ absurd (omega (arith, out, there, ap (λ z. copies z xs) ((==_iff x y).0 same)))
  | inr differ ↦ differ
]

pub Placed-write :
    (next : Memory) (rec word : ℕ) (made xs : List ℕ) (p : Place)
    → record_of p ≢ rec
    → Placed next made xs p
    → Placed (write next rec word) made xs p
Placed-write next rec word made xs outside differ h = tt
Placed-write next rec word made xs (scanning r) differ h = h
Placed-write next rec word made xs (holding r) differ h = h
Placed-write next rec word made xs (linking r old) differ h = ground (arith, differ)
Placed-write next rec word made xs (owning r) differ h = h

pub Placed-made :
    (next : Memory) (rec : ℕ) (made xs : List ℕ) (p : Place)
    → Placed next made xs p
    → Placed next (rec ∷ made) xs p
Placed-made next rec made xs outside h = tt
Placed-made next rec made xs (scanning r) h = h
Placed-made next rec made xs (holding r) h = (h.0, omega (arith, h.1), h.2)
Placed-made next rec made xs (linking r old) h = (h.0, omega (arith, h.1), h.2, h.3)
Placed-made next rec made xs (owning r) h = (h.0, omega (arith, h.1), h.2)

pub Placed-link :
    (next : Memory) (rec : ℕ) (made xs : List ℕ) (p : Place)
    → copies rec xs ≡ 0
    → record_of p ≢ rec
    → Placed next made xs p
    → Placed next made (rec ∷ xs) p
Placed-link next rec made xs outside out differ h = tt
Placed-link next rec made xs (scanning r) out differ h = λ real.
    let there = h real in
    let other : (rec == r) ≡ false = absent rec r xs out there in rw other (omega (arith, there))
Placed-link next rec made xs (holding r) out differ h = (h.0, h.1, ground (arith, differ, h.2))
Placed-link next rec made xs (linking r old) out differ h =
    (h.0, h.1, ground (arith, differ, h.2), h.3)
Placed-link next rec made xs (owning r) out differ h = (h.0, h.1, ground (arith, differ, h.2))

-- A thread with a record has one that was made.
pub record_made :
    (next : Memory) (made xs : List ℕ) (p : Place)
    → Placed next made xs p
    → record_of p ≢ 0
    → 0 < copies (record_of p) made
record_made next made xs outside h real = absurd (real refl)
record_made next made xs (scanning r) h real = absurd (real refl)
record_made next made xs (holding r) h real = h.1
record_made next made xs (linking r old) h real = h.1
record_made next made xs (owning r) h real = h.1

pub head_there :
    (next : Memory) (head : ℕ) (xs : List ℕ) → IsChain next head xs → head ≢ 0 → 0 < copies head xs
head_there next head [] chain real = absurd (real chain)
head_there next head (x ∷ xs) chain real = rw ((==_iff x head).1 (sym chain.0)) (omega arith)

-- The record after one in the list is in the list, unless it is the end.
pub next_there :
    (next : Memory) (head rec : ℕ) (xs : List ℕ)
    → IsChain next head xs
    → 0 < copies rec xs
    → next rec ≢ 0
    → 0 < copies (next rec) xs
next_there next head rec [] chain there real = absurd (omega (arith, there))
next_there next head rec (x ∷ xs) chain there real = elim (Bool-cases (x == rec)) [
  | inl here ↦
      let e = (==_iff x rec).0 here in
      omega (
        arith,
        head_there next (next rec) xs (subst (λ y. IsChain next (next y) xs) e chain.2) real,
      )
  | inr later ↦ omega (arith, next_there next (next x) rec xs chain.2 (ground (arith, there)) real)
]

pub fresh_other :
    (next : Memory) (made xs : List ℕ) (p : Place) (rec : ℕ)
    → copies rec made ≡ 0
    → rec ≢ 0
    → Placed next made xs p
    → record_of p ≢ rec
fresh_other next made xs p rec new real placed same =
    let there = record_made next made xs p placed (λ e. real (sym same ∙ e)) in
    absurd (omega (arith, new, there, ap (λ x. copies x made) same))

pub fresh_out :
    (x : ℕ) (made xs : List ℕ)
    → (0 < copies x xs → 0 < copies x made)
    → copies x made ≡ 0
    → copies x xs ≡ 0
fresh_out x made xs known new = ground (arith, known, new)
