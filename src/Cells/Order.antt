-- ===== src/Cells/Order.antt =====
-- What the verdict of the comparison loop means.
use cauchy.Prelude.{
  ℕ, zero, suc, ◌≤◌, ◌<◌, ◌≡◌, refl, max, Bool, true, false, List, ltb, loop, inl, inr,
  if◌then◌else◌, arith, Bool-cases, ◌↔◌, ltb→lt, ltb→le, sym, subst,
}
use cauchy.Types.{Causality, happens_before, concurrent, happens_after, equal}
use cauchy.Cells.{cell, mark, verdict, causality}

-- One vector strictly below another: README's V1 ≺ V2.
abbrev pub Precedes : (ℕ → ℕ) → (ℕ → ℕ) → Type 0
Precedes f g = ((i : ℕ) → f i ≤ g i) × ((i : ℕ) × (f i < g i))

abbrev pub Means : Causality → (ℕ → ℕ) → (ℕ → ℕ) → Type 0
Means happens_before f g = Precedes f g
Means happens_after f g = Precedes g f
Means equal f g = (i : ℕ) → f i ≡ g i
Means concurrent f g = ((i : ℕ) × (f i < g i)) × ((i : ℕ) × (g i < f i))

-- A flag of the loop: a cell among the first `n` where `f` is below `g`, or none.
abbrev Flag : Bool → ℕ → (ℕ → ℕ) → (ℕ → ℕ) → Type 0
Flag true n f g = (i : ℕ) × (i < n) × (f i < g i)
Flag false n f g = (i : ℕ) → i < n → g i ≤ f i

Flag-suc :
    (b : Bool) (n : ℕ) (f g : ℕ → ℕ)
    → Flag b n f g
    → Flag (if ltb (f n) (g n) then true else b) (suc n) f g
Flag-suc b n f g h = elim (Bool-cases (ltb (f n) (g n))) [
  | inl below ↦ rw below (n, omega arith, ltb→lt (f n) (g n) below)
  | inr level ↦ rw level (keep b h (ltb→le (f n) (g n) level))
]
  where
    keep : (b : Bool) → Flag b n f g → g n ≤ f n → Flag b (suc n) f g
    keep true (i, lt, less) le = (i, omega arith, less)
    keep false h le = λ i lt. elim (Bool-cases (ltb i n)) [
      | inl old ↦ h i (ltb→lt i n old)
      | inr new ↦ subst (λ k. g k ≤ f k) (omega (arith, ltb→le i n new)) le
    ]

loop-Flag :
    (n : ℕ) (f g : ℕ → ℕ)
    → let (less, greater) = loop n (mark f g) (false, false) in Flag less n f g × Flag greater n g f
unfolding loop
loop-Flag zero f g = (λ i h. absurd (omega arith), λ i h. absurd (omega arith))
loop-Flag (suc n) f g =
    let (less, greater) = loop-Flag n f g in (Flag-suc _ n f g less, Flag-suc _ n g f greater)

-- Past the first `n` cells both vectors are level.
extend :
    (n : ℕ) (f g : ℕ → ℕ) → ((i : ℕ) → n ≤ i → f i ≡ g i) → Flag false n f g → (i : ℕ) → g i ≤ f i
extend n f g level h i = elim (Bool-cases (ltb i n)) [
  | inl old ↦ h i (ltb→lt i n old)
  | inr new ↦ omega (arith, level i (ltb→le i n new))
]

verdict-Means :
    (flags : Bool × Bool) (n : ℕ) (f g : ℕ → ℕ)
    → ((i : ℕ) → n ≤ i → f i ≡ g i)
    → Flag flags.0 n f g
    → Flag flags.1 n g f
    → Means (verdict flags) f g
verdict-Means (true, true) n f g level (i, _, lt) (j, _, gt) = ((i, lt), (j, gt))
verdict-Means (true, false) n f g level (i, _, lt) h =
    (extend n g f (λ k p. sym (level k p)) h, (i, lt))
verdict-Means (false, true) n f g level h (j, _, gt) = (extend n f g level h, (j, gt))
verdict-Means (false, false) n f g level h k =
    λ i. omega (arith, extend n f g level h i, extend n g f (λ k p. sym (level k p)) k i)

pub causality-Means :
    (xs : List ℕ) (n : ℕ) (ys : List ℕ) (m : ℕ)
    → Means (causality xs n ys m) (cell xs n) (cell ys m)
unfolding causality
causality-Means xs n ys m =
    let f = cell xs n in
    let g = cell ys m in
    let (less, greater) = loop-Flag (max n m) f g in
    verdict-Means _ (max n m) f g (λ i h. ground arith) less greater

-- The four meanings exclude one another.
pub Means-unique : (c d : Causality) (f g : ℕ → ℕ) → Means c f g → Means d f g → c ≡ d
Means-unique happens_before happens_before f g h k = refl
Means-unique happens_before concurrent f g h k = absurd (omega (arith, h.0 k.1.0, k.1.1))
Means-unique happens_before happens_after f g h k = absurd (omega (arith, k.0 h.1.0, h.1.1))
Means-unique happens_before equal f g h k = absurd (omega (arith, k h.1.0, h.1.1))
Means-unique concurrent happens_before f g h k = absurd (omega (arith, k.0 h.1.0, h.1.1))
Means-unique concurrent concurrent f g h k = refl
Means-unique concurrent happens_after f g h k = absurd (omega (arith, k.0 h.0.0, h.0.1))
Means-unique concurrent equal f g h k = absurd (omega (arith, k h.0.0, h.0.1))
Means-unique happens_after happens_before f g h k = absurd (omega (arith, k.0 h.1.0, h.1.1))
Means-unique happens_after concurrent f g h k = absurd (omega (arith, h.0 k.0.0, k.0.1))
Means-unique happens_after happens_after f g h k = refl
Means-unique happens_after equal f g h k = absurd (omega (arith, k h.1.0, h.1.1))
Means-unique equal happens_before f g h k = absurd (omega (arith, h k.1.0, k.1.1))
Means-unique equal concurrent f g h k = absurd (omega (arith, h k.0.0, k.0.1))
Means-unique equal happens_after f g h k = absurd (omega (arith, h k.1.0, k.1.1))
Means-unique equal equal f g h k = refl

pub causality_iff :
    (xs : List ℕ) (n : ℕ) (ys : List ℕ) (m : ℕ) (c : Causality)
    → (causality xs n ys m ≡ c) ↔ Means c (cell xs n) (cell ys m)
causality_iff xs n ys m c = (
  (λ e. subst (λ d. Means d (cell xs n) (cell ys m)) e (causality-Means xs n ys m)),
  Means-unique _ c _ _ (causality-Means xs n ys m),
)
