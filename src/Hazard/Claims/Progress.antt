-- ===== src/Hazard/Claims/Progress.antt =====
-- That a thread which runs alone for long enough gets its record, wherever the others stopped.
use cauchy.Prelude.{
  ℕ, ◌<◌, ◌≡◌, ◌≢◌, refl, sym, ap, ◌∙◌, subst, true, List, [], ◌∷◌, ◌==◌, ==_iff, ==_refl, arith,
  Bool-cases, inl, inr,
}
use cauchy.Pool.{Memory}
use cauchy.Pool.Blocks.{IsChain, copies}
use cauchy.Hazard.Claims.{
  Place, outside, scanning, holding, linking, owning, Shared, at_place, Step, enter, lose, win,
  fail, make, load, link, retry, Reach,
}
use cauchy.Hazard.Claims.Places.{Placed}
use cauchy.Hazard.Claims.Invariant.{Inv, Reach-Inv}

-- The thread that makes a step.
abbrev pub mover : {s s' : Shared} → Step s s' → ℕ
mover (enter t from) = t
mover (lose t rec from real taken) = t
mover (win t rec from real free) = t
mover (fail t from) = t
mover (make t rec from real new) = t
mover (load t rec from) = t
mover (link t rec old from same) = t
mover (retry t rec old from differ) = t

-- A run of steps of one thread.
pub data Alone (t : ℕ) : Shared → Shared → Type 0 where
  done : {s : Shared} → Alone t s s
  more : {s s' s'' : Shared} (step : Step s s') → mover step ≡ t → Alone t s' s'' → Alone t s s''

-- The thread gets a record.
abbrev pub Gets : ℕ → Shared → Type 0
Gets t s = (s' : Shared) × (rec : ℕ) × Alone t s s' × (s'.threads t ≡ owning rec)

at_own : (s : Shared) (t : ℕ) (p : Place) → (at_place s t p).threads t ≡ p
at_own s t p = rw (==_refl t) refl

step_first : (t : ℕ) {s s' : Shared} (step : Step s s') → mover step ≡ t → Gets t s' → Gets t s
step_first t step own (last, rec, run, gets) = (last, rec, more step own run, gets)

linking_fresh : (s : Shared) (t rec : ℕ) → s.threads t ≡ linking rec s.head → Gets t s
linking_fresh s t rec from =
    step_first t (link t rec s.head from refl) refl (_, rec, done, at_own s t (owning rec))

holding-Gets : (s : Shared) (t rec : ℕ) → s.threads t ≡ holding rec → Gets t s
holding-Gets s t rec from =
    step_first t (load t rec from) refl (linking_fresh _ t rec (at_own s t (linking rec s.head)))

linking-Gets : (s : Shared) (t rec old : ℕ) → s.threads t ≡ linking rec old → Gets t s
linking-Gets s t rec old from = elim (Bool-cases (s.head == old)) [
  | inl same ↦
      let head : s.head ≡ old = (==_iff s.head old).0 same in
      linking_fresh s t rec (from ∙ ap (linking rec) (sym head))
  | inr changed ↦
      step_first t (retry t rec old from (λ e. absurd (cc (changed, (==_iff s.head old).1 e)))) refl
        (holding-Gets _ t rec (at_own s t (holding rec)))
]

-- By the records that are left to scan.
scanning-Gets :
    (ys : List ℕ) (s : Shared) (t rec new : ℕ)
    → s.threads t ≡ scanning rec
    → IsChain s.next rec ys
    → ((x : ℕ) → 0 < copies x ys → s.active x ≡ true)
    → new ≢ 0
    → copies new s.made ≡ 0
    → Gets t s
scanning-Gets [] s t rec new from end busy real fresh =
    step_first t (make t new (from ∙ ap scanning end) real fresh) refl
      (holding-Gets _ t new (at_own s t (holding new)))
scanning-Gets (x ∷ ys) s t rec new from chain busy real fresh =
    let here : 0 < copies rec (x ∷ ys) = rw ((==_iff x rec).1 (sym chain.0)) (omega arith) in
    step_first t (lose t rec from (λ e. chain.1 (sym chain.0 ∙ e)) (busy rec here)) refl (
      scanning-Gets ys (at_place s t (scanning (s.next rec))) t (s.next rec) new
        (at_own s t (scanning (s.next rec)))
        (subst (λ y. IsChain s.next (s.next y) ys) (sym chain.0) chain.2)
        (λ y there. busy y (omega (arith, there))) real fresh)

-- The rest of the list from a record in it.
rest_of :
    (next : Memory) (head rec : ℕ) (xs : List ℕ)
    → IsChain next head xs
    → 0 < copies rec xs
    → (ys : List ℕ) × IsChain next rec ys × ((x : ℕ) → 0 < copies x ys → 0 < copies x xs)
rest_of next head rec [] chain there = absurd (omega (arith, there))
rest_of next head rec (x ∷ xs) chain there = elim (Bool-cases (x == rec)) [
  | inl here ↦
      let e = (==_iff x rec).0 here in (x ∷ xs, (sym e, chain.1, chain.2), λ y counted. counted)
  | inr later ↦
      let (ys, found, within) =
        rest_of next (next x) rec xs chain.2 (ground (arith, there, later)) in
      (ys, found, λ y counted. omega (arith, within y counted))
]

place-Gets :
    (s : Shared) (xs : List ℕ) (t new : ℕ) (p : Place)
    → Inv s xs
    → s.threads t ≡ p
    → new ≢ 0
    → copies new s.made ≡ 0
    → Gets t s
place-Gets s xs t new outside inv from real fresh = step_first t (enter t from) refl (
    scanning-Gets xs (at_place s t (scanning s.head)) t s.head new (at_own s t (scanning s.head))
      inv.chain (λ x there. inv.busy x (inv.known x there)) real fresh)
place-Gets s xs t new (scanning rec) inv from real fresh = elim (Bool-cases (rec == 0)) [
  | inl end ↦
      scanning-Gets [] s t rec new from ((==_iff rec 0).0 end)
        (λ x there. absurd (omega (arith, there))) real fresh
  | inr some_record ↦
      let placed = subst (Placed s.next s.made xs) from (inv.placed t) in
      let there = placed (λ e. absurd (cc (some_record, (==_iff rec 0).1 e))) in
      let (ys, rest, within) = rest_of s.next s.head rec xs inv.chain (omega (arith, there)) in
      scanning-Gets ys s t rec new from rest
        (λ x counted. inv.busy x (inv.known x (within x counted))) real fresh
]
place-Gets s xs t new (holding rec) inv from real fresh = holding-Gets s t rec from
place-Gets s xs t new (linking rec old) inv from real fresh = linking-Gets s t rec old from
place-Gets s xs t new (owning rec) inv from real fresh = (s, rec, done, from)

-- From every state that the threads of a domain can reach, wherever the other threads stopped: a
-- thread that runs alone from then on has a record after finitely many steps of its own, where the
-- allocator can return a new one.
pub claims_progress :
    {s : Shared} (t new : ℕ)
    → Reach s
    → new ≢ 0
    → copies new s.made ≡ 0
    → (s' : Shared) × (rec : ℕ) × Alone t s s' × (s'.threads t ≡ owning rec)
claims_progress {s} t new reach real fresh =
    let (xs, inv) = Reach-Inv reach in place-Gets s xs t new (s.threads t) inv refl real fresh
