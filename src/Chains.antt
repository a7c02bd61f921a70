-- ===== src/Chains.antt =====
-- The hash tables of src/crdt/g_set.c and src/crdt/or_set.c: an array of chains, and the order in
-- which `for (i = 0; i < num_buckets; i++)` around a loop over a chain meets the elements.
use cauchy.Prelude.{
  ℕ, zero, suc, ◌+◌, ◌<◌, ◌≡◌, ◌≢◌, refl, sym, ap, ap₂, ◌∙◌, List, [], ◌∷◌, ◌++◌, get_or, set,
  length, drop, ◌-◌, arith,
}

module _ {ℓ} {A : Type ℓ} where
  abbrev pub chains : List (List A) → ℕ → List A
  chains buckets zero = []
  chains [] (suc n) = []
  chains (chain ∷ buckets) (suc n) = chain ++ chains buckets n

  -- What is summed up over all elements, where only one bucket has a share in it.
  module _ {κ} {B : Type κ} (f : List A → B) (e : B) (op : B → B → B) (f-nil : f [] ≡ e)
      (f-append : (xs ys : List A) → f (xs ++ ys) ≡ op (f xs) (f ys))
      (op-unit : (x : B) → (op e x ≡ x) × (op x e ≡ x)) where
    chains_nowhere :
        (bs : List (List A)) (n : ℕ) → ((i : ℕ) → f (get_or bs i []) ≡ e) → f (chains bs n) ≡ e
    chains_nowhere bs zero h = f-nil
    chains_nowhere [] (suc n) h = f-nil
    chains_nowhere (c ∷ bs) (suc n) h =
        f-append c (chains bs n)
        ∙ ap₂ op (h 0) (chains_nowhere bs n (λ i. h (suc i)))
        ∙ (op-unit e).0

    pub chains_only :
        (bs : List (List A)) (n j : ℕ)
        → j < n
        → ((i : ℕ) → i ≢ j → f (get_or bs i []) ≡ e)
        → f (chains bs n) ≡ f (get_or bs j [])
    chains_only bs zero j lt h = absurd (omega arith)
    chains_only [] (suc n) j lt h = refl
    chains_only (c ∷ bs) (suc n) zero lt h =
        f-append c (chains bs n)
        ∙ ap (op (f c)) (chains_nowhere bs n (λ i. h (suc i) (omega arith)))
        ∙ (op-unit (f c)).1
    chains_only (c ∷ bs) (suc n) (suc j) lt h =
        f-append c (chains bs n)
        ∙ ap (λ x. op x (f (chains bs n))) (h 0 (omega arith))
        ∙ (op-unit (f (chains bs n))).0
        ∙ chains_only bs n j (omega arith) (λ i ne. h (suc i) (omega arith))

-- A sum over all elements, after a write to one bucket.
module _ {ℓ} {A : Type ℓ} (f : List A → ℕ) (f-nil : f [] ≡ 0)
    (f-append : (xs ys : List A) → f (xs ++ ys) ≡ f xs + f ys) where
  pub chains-set :
      (bs : List (List A)) (n i : ℕ) (c : List A)
      → i < n
      → n ≡ length bs
      → f (chains (set bs i c) n) + f (get_or bs i []) ≡ f (chains bs n) + f c
  chains-set bs zero i c lt e = absurd (omega arith)
  chains-set [] (suc n) i c lt e = absurd (omega arith)
  chains-set (b ∷ bs) (suc n) zero c lt e =
      omega (arith, f-append b (chains bs n), f-append c (chains bs n))
  chains-set (b ∷ bs) (suc n) (suc i) c lt e = omega (
    arith,
    f-append b (chains bs n),
    f-append b (chains (set bs i c) n),
    chains-set bs n i c (omega arith) (omega arith),
  )

module _ {ℓ} {A : Type ℓ} where
  pub chains_nil : (m : ℕ) → chains {A = A} [] m ≡ []
  chains_nil zero = refl
  chains_nil (suc m) = refl

  nothing_from : (n k : ℕ) → chains {A = A} (drop k []) n ≡ []
  nothing_from n zero = chains_nil n
  nothing_from n (suc k) = chains_nil n

  -- The elements from the `k`-th bucket on.
  pub chains_from :
      (bs : List (List A)) (n k : ℕ)
      → k < n
      → chains (drop k bs) (n - k) ≡ get_or bs k [] ++ chains (drop (k + 1) bs) (n - (k + 1))
  chains_from [] n k lt = nothing_from (n - k) k ∙ sym (nothing_from (n - (k + 1)) (k + 1))
  chains_from (b ∷ bs) zero k lt = absurd (omega arith)
  chains_from (b ∷ bs) (suc n) zero lt =
      let all : suc n - 0 ≡ suc n = omega arith in
      let rest : suc n - 1 ≡ n = omega arith in rw (all, rest)
  chains_from (b ∷ bs) (suc n) (suc k) lt =
      let here : suc n - suc k ≡ n - k = omega arith in
      let rest : suc n - (suc k + 1) ≡ n - (k + 1) = omega arith in
      let next : suc k + 1 ≡ suc (k + 1) = omega arith in
      rw (here, rest, next) (chains_from bs n k (omega arith))
