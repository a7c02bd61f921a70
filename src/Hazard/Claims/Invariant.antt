-- ===== src/Hazard/Claims/Invariant.antt =====
-- What holds of the records of a domain and of the threads that ask for one, at every step.
use cauchy.Prelude.{
  ℕ, ◌<◌, ◌≤◌, ◌≡◌, ◌≢◌, refl, sym, ap, ◌∙◌, subst, true, List, [], ◌∷◌, ◌==◌, ==_iff, ==_refl,
  arith, Bool-cases, inl, inr, update, update_others,
}
use cauchy.Atomic.{fetch_add_u32}
use cauchy.Pool.{write}
use cauchy.Pool.Blocks.{IsChain, copies, IsChain-write}
use cauchy.Hazard.Claims.{
  Place, outside, scanning, holding, linking, owning, Shared, at_place, Step, enter, lose, win,
  fail, make, load, link, retry, Reach, created, further,
}
use cauchy.Hazard.Claims.Places.{
  record_of, Placed, Apart, update-Apart, Placed-write, Placed-made, Placed-link, next_there,
  head_there, fresh_other, fresh_out,
}

-- `xs` is the list of records from `head` on.
pub record Inv (s : Shared) (xs : List ℕ) : Type 0 where
  pub chain : IsChain s.next s.head xs
  pub known : (x : ℕ) → 0 < copies x xs → 0 < copies x s.made
  pub once : (x : ℕ) → copies x xs ≤ 1
  pub busy : (x : ℕ) → 0 < copies x s.made → s.active x ≡ true
  pub placed : (t : ℕ) → Placed s.next s.made xs (s.threads t)
  pub apart : Apart s.threads

-- A step of a thread that leaves the records as they are.
update-Placed :
    (s : Shared) (xs : List ℕ) (t : ℕ) (p : Place)
    → Inv s xs
    → Placed s.next s.made xs p
    → (record_of p ≢ 0 → record_of p ≡ record_of (s.threads t))
    → Inv (at_place s t p) xs
update-Placed s xs t p inv here mine = record {
  chain = inv.chain;
  known = inv.known;
  once = inv.once;
  busy = inv.busy;
  placed =
      update_others (λ u q. Placed s.next s.made xs q) s.threads t p here
        (λ u differ. inv.placed u);
  apart = update-Apart s.threads t p inv.apart (λ u differ real same.
      inv.apart t u (λ e. differ (sym e)) (λ e. real (mine real ∙ e)) (sym (mine real) ∙ same));
}

make-Inv :
    (s : Shared) (xs : List ℕ) (t rec : ℕ)
    → Inv s xs
    → rec ≢ 0
    → copies rec s.made ≡ 0
    → Inv
        (record (at_place s t (holding rec)) {
          next = write s.next rec 0;
          active = update s.active rec true;
          made = rec ∷ s.made;
        })
        xs
make-Inv s xs t rec inv real new =
    let out = fresh_out rec s.made xs (inv.known rec) new in
    let others =
      λ (u : ℕ). fresh_other s.next s.made xs (s.threads u) rec new real (inv.placed u) in
    record {
      chain = IsChain-write s.next rec 0 s.head xs out inv.chain;
      known = λ x there. omega (arith, inv.known x there);
      once = inv.once;
      busy = λ x there. elim (Bool-cases (x == rec)) [
        | inl own ↦ rw own refl
        | inr other ↦ rw other (inv.busy x (ground (arith, there, other)))
      ];
      placed =
          update_others (λ u q. Placed (write s.next rec 0) (rec ∷ s.made) xs q) s.threads t
            (holding rec) (real, ground arith, out)
            (λ u differ.
              Placed-made (write s.next rec 0) rec s.made xs (s.threads u)
                (Placed-write s.next rec 0 s.made xs (s.threads u) (others u) (inv.placed u)));
      apart =
          update-Apart s.threads t (holding rec) inv.apart
            (λ u differ some_record same. others u (sym same));
    }

load-Inv :
    (s : Shared) (xs : List ℕ) (t rec : ℕ)
    → Inv s xs
    → s.threads t ≡ holding rec
    → Inv (record (at_place s t (linking rec s.head)) { next = write s.next rec s.head }) xs
load-Inv s xs t rec inv held =
    let (real, there, out) = subst (Placed s.next s.made xs) held (inv.placed t) in
    let mine : record_of (s.threads t) ≡ rec = ap record_of held in
    let others = λ (u : ℕ) (differ : u ≢ t) (same : record_of (s.threads u) ≡ rec).
      inv.apart t u (λ e. differ (sym e)) (λ e. real (sym mine ∙ e)) (mine ∙ sym same) in
    record {
      chain = IsChain-write s.next rec s.head s.head xs out inv.chain;
      known = inv.known;
      once = inv.once;
      busy = inv.busy;
      placed =
          update_others (λ u q. Placed (write s.next rec s.head) s.made xs q) s.threads t
            (linking rec s.head) (real, there, out, rw (==_refl rec) refl)
            (λ u differ.
              Placed-write s.next rec s.head s.made xs (s.threads u) (others u differ)
                (inv.placed u));
      apart =
          update-Apart s.threads t (linking rec s.head) inv.apart
            (λ u differ some_record same. others u differ (sym same));
    }

link-Inv :
    (s : Shared) (xs : List ℕ) (t rec old : ℕ)
    → Inv s xs
    → s.threads t ≡ linking rec old
    → s.head ≡ old
    → Inv
        (record (at_place s t (owning rec)) {
          head = rec;
          record_count = fetch_add_u32 s.record_count 1;
        })
        (rec ∷ xs)
link-Inv s xs t rec old inv linked same_head =
    let (real, there, out, to_old) = subst (Placed s.next s.made xs) linked (inv.placed t) in
    let mine : record_of (s.threads t) ≡ rec = ap record_of linked in
    let others = λ (u : ℕ) (differ : u ≢ t) (same : record_of (s.threads u) ≡ rec).
      inv.apart t u (λ e. differ (sym e)) (λ e. real (sym mine ∙ e)) (mine ∙ sym same) in
    record {
      chain = (refl, real, subst (λ h. IsChain s.next h xs) (same_head ∙ sym to_old) inv.chain);
      known = λ x counted. elim (Bool-cases (rec == x)) [
        | inl own ↦ subst (λ y. 0 < copies y s.made) ((==_iff rec x).0 own) there
        | inr other ↦ inv.known x (ground (arith, counted, other))
      ];
      once = λ x. elim (Bool-cases (rec == x)) [
        | inl own ↦ rw own (omega (arith, out, ap (λ y. copies y xs) ((==_iff rec x).0 own)))
        | inr other ↦ rw other (omega (arith, inv.once x))
      ];
      busy = inv.busy;
      placed =
          update_others (λ u q. Placed s.next s.made (rec ∷ xs) q) s.threads t (owning rec)
            (real, there, rw (==_refl rec) (omega (arith, out)))
            (λ u differ.
              Placed-link s.next rec s.made xs (s.threads u) out (others u differ) (inv.placed u));
      apart =
          update-Apart s.threads t (owning rec) inv.apart
            (λ u differ some_record same. others u differ (sym same));
    }

once_there : (x : ℕ) (xs : List ℕ) → copies x xs ≤ 1 → 0 < copies x xs → copies x xs ≡ 1
once_there x xs once there = omega (arith, once, there)

Step-Inv : {s s' : Shared} (xs : List ℕ) → Step s s' → Inv s xs → (xs' : List ℕ) × Inv s' xs'
Step-Inv {s} xs (enter t from) inv = (
  xs,
  update-Placed s xs t (scanning s.head) inv
      (λ real. once_there s.head xs (inv.once s.head) (head_there s.next s.head xs inv.chain real))
      (λ some_record. absurd (some_record refl)),
)
Step-Inv {s} xs (lose t rec from real taken) inv =
    let there = subst (Placed s.next s.made xs) from (inv.placed t) real in
    (
      xs,
      update-Placed s xs t (scanning (s.next rec)) inv
          (λ more.
            once_there (s.next rec) xs (inv.once (s.next rec))
              (next_there s.next s.head rec xs inv.chain (omega (arith, there)) more))
          (λ some_record. absurd (some_record refl)),
    )
Step-Inv {s} xs (win t rec from real free) inv =
    let there = subst (Placed s.next s.made xs) from (inv.placed t) real in
    absurd (cc (free, inv.busy rec (inv.known rec (omega (arith, there)))))
Step-Inv {s} xs (fail t from) inv =
    (xs, update-Placed s xs t outside inv tt (λ some_record. absurd (some_record refl)))
Step-Inv {s} xs (make t rec from real new) inv = (xs, make-Inv s xs t rec inv real new)
Step-Inv {s} xs (load t rec held) inv = (xs, load-Inv s xs t rec inv held)
Step-Inv {s} xs (link t rec old from same) inv = (rec ∷ xs, link-Inv s xs t rec old inv from same)
Step-Inv {s} xs (retry t rec old from differ) inv =
    let (real, there, out, to_old) = subst (Placed s.next s.made xs) from (inv.placed t) in
    (
      xs,
      update-Placed s xs t (holding rec) inv (real, there, out)
          (λ some_record. sym (ap record_of from)),
    )

pub Reach-Inv : {s : Shared} → Reach s → (xs : List ℕ) × Inv s xs
Reach-Inv (created next active) = (
  [],
  record {
    chain = refl;
    known = λ x there. there;
    once = λ x. omega arith;
    busy = λ x there. absurd (omega (arith, there));
    placed = λ t. tt;
    apart = λ t u differ real. absurd (real refl);
  },
)
Reach-Inv (further reach step) = let (xs, inv) = Reach-Inv reach in Step-Inv xs step inv

-- However the threads of a domain interleave in asking for a record: two threads that have one have
-- different ones, both records are active, and both are in the list from `head` on, which has no
-- record twice and ends.
pub claims_exclusive :
    {s : Shared} (t u r r' : ℕ)
    → Reach s
    → t ≢ u
    → s.threads t ≡ owning r
    → s.threads u ≡ owning r'
    → (xs : List ℕ) × (r ≢ r')
      × (s.active r ≡ true)
      × (s.active r' ≡ true)
      × IsChain s.next s.head xs
      × (copies r xs ≡ 1)
      × (copies r' xs ≡ 1)
      × ((x : ℕ) → copies x xs ≤ 1)
claims_exclusive {s} t u r r' reach differ mine other =
    let (xs, inv) = Reach-Inv reach in
    let (real, made, there) = subst (Placed s.next s.made xs) mine (inv.placed t) in
    let (real', made', there') = subst (Placed s.next s.made xs) other (inv.placed u) in
    let at = ap record_of mine in
    let at' = ap record_of other in
    (
      xs,
      λ same. inv.apart t u differ (λ e. real (sym at ∙ e)) (at ∙ same ∙ sym at'),
      inv.busy r made,
      inv.busy r' made',
      inv.chain,
      there,
      there',
      inv.once,
    )
