-- ===== src/Convergence.antt =====
-- What the README asks of every replicated type: a merge that is commutative, associative and
-- idempotent in what it makes observable, so that replicas which received the same states agree,
-- whatever the order and the repetitions. Each type of src/crdt supplies a `Crdt`.
pub mod Classes
use mathlib.Core.List.{Memᴰ}
use cauchy.Prelude.{subst, ◌≡◌, refl, sym, ◌∙◌, ap, Option, none, some, List, [], ◌∷◌}

-- Observable states, with their join.
pub record Semilattice {ℓ} (V : Type ℓ) : Type ℓ where
  pub join : V → V → V
  pub join_comm : (u v : V) → join u v ≡ join v u
  pub join_assoc : (u v w : V) → join (join u v) w ≡ join u (join v w)
  pub join_idem : (v : V) → join v v ≡ v

-- Two components that are joined apart.
module _ {ℓ} {V W : Type ℓ} (lattice : Semilattice V) (lattice' : Semilattice W) where
  abbrev pub pair_lattice : Semilattice (V × W)
  pair_lattice = record {
    join = λ u v. (lattice.join u.0 v.0, lattice'.join u.1 v.1);
    join_comm = λ u v i. (lattice.join_comm u.0 v.0 i, lattice'.join_comm u.1 v.1 i);
    join_assoc = λ u v w i. (lattice.join_assoc u.0 v.0 w.0 i, lattice'.join_assoc u.1 v.1 w.1 i);
    join_idem = λ v i. (lattice.join_idem v.0 i, lattice'.join_idem v.1 i);
  }

-- A replicated type: `merge dst src` is what `dst` holds afterwards, `none` for a failed merge.
pub record Crdt {ℓ} (S : Type ℓ) (V : Type ℓ) : Type (ℓ + 1) where
  pub lattice : Semilattice V
  pub IsState : S → Type ℓ
  pub view : S → V
  pub merge : S → S → Option S
  pub merge-view :
      (a b : S)
      → IsState a
      → IsState b
      → (c : S) × (merge a b ≡ some c) × IsState c × (view c ≡ lattice.join (view a) (view b))

module _ {ℓ} {S V : Type ℓ} (crdt : Crdt S V) where
  open crdt use {lattice, IsState, view, merge, merge-view}
  open lattice use {join, join_comm, join_assoc, join_idem}

  abbrev pub AllStates : List S → Type ℓ
  AllStates [] = Unit
  AllStates (m ∷ ms) = IsState m × AllStates ms

  -- A replica merges what it receives, in order.
  pub deliver : S → List S → Option S
  deliver s [] = some s
  deliver s (m ∷ ms) = elim (merge s m) [ none ↦ none | some t ↦ deliver t ms ]

  -- The same states, in any order, any number of times.
  abbrev pub SameStates : List S → List S → Type ℓ
  SameStates xs ys = ((m : S) → Memᴰ m xs → Memᴰ m ys) × ((m : S) → Memᴰ m ys → Memᴰ m xs)

  joins : V → List S → V
  joins v [] = v
  joins v (m ∷ ms) = joins (join v (view m)) ms

  Below : V → V → Type ℓ
  Below u v = join u v ≡ v

  Below-trans : (u v w : V) → Below u v → Below v w → Below u w
  unfolding Below
  Below-trans u v w p q = cc (join_assoc u v w)

  Below-antisymm : (u v : V) → Below u v → Below v u → u ≡ v
  unfolding Below
  Below-antisymm u v p q = cc (join_comm u v)

  Below-join_left : (u v : V) → Below u (join u v)
  unfolding Below
  Below-join_left u v = cc (join_assoc u u v, join_idem u)

  Below-join_right : (u v : V) → Below v (join u v)
  unfolding Below
  Below-join_right u v = cc (join_comm v (join u v), join_assoc u v v, join_idem v)

  join-Below : (u v w : V) → Below u w → Below v w → Below (join u v) w
  unfolding Below
  join-Below u v w p q = cc (join_assoc u v w)

  Below-joins : (v : V) (ms : List S) → Below v (joins v ms)
  unfolding joins Below
  Below-joins v [] = join_idem v
  Below-joins v (m ∷ ms) =
      Below-trans v _ _ (Below-join_left v (view m)) (Below-joins (join v (view m)) ms)

  member-Below : (v : V) (m : S) (ms : List S) → Memᴰ m ms → Below (view m) (joins v ms)
  unfolding joins
  member-Below v m [] t = elim t [ ]
  member-Below v m (x ∷ ms) (Memᴰ.head e) =
      Below-trans (view m) (join v (view x)) _
        (subst (λ y. Below (view m) (join v (view y))) e (Below-join_right v (view m)))
        (Below-joins (join v (view x)) ms)
  member-Below v m (x ∷ ms) (Memᴰ.tail t) = member-Below (join v (view x)) m ms t

  joins-Below :
      (v w : V) (ms : List S)
      → Below v w
      → ((m : S) → Memᴰ m ms → Below (view m) w)
      → Below (joins v ms) w
  unfolding joins
  joins-Below v w [] h each = h
  joins-Below v w (m ∷ ms) h each =
      joins-Below (join v (view m)) w ms (join-Below v (view m) w h (each m (Memᴰ.head refl)))
        (λ n t. each n (Memᴰ.tail t))

  joins_congr : (v : V) (xs ys : List S) → SameStates xs ys → joins v xs ≡ joins v ys
  joins_congr v xs ys same =
      Below-antisymm _ _
        (joins-Below v _ xs (Below-joins v ys) (λ m t. member-Below v m ys (same.0 m t)))
        (joins-Below v _ ys (Below-joins v xs) (λ m t. member-Below v m xs (same.1 m t)))

  own_Below : (b m : S) (ys : List S) → Memᴰ m (b ∷ ys) → Below (view m) (joins (view b) ys)
  own_Below b m ys (Memᴰ.head e) =
      subst (λ y. Below (view m) (joins (view y) ys)) e (Below-joins (view m) ys)
  own_Below b m ys (Memᴰ.tail t) = member-Below (view b) m ys t

  joins_within :
      (a b : S) (xs ys : List S)
      → ((m : S) → Memᴰ m (a ∷ xs) → Memᴰ m (b ∷ ys))
      → Below (joins (view a) xs) (joins (view b) ys)
  joins_within a b xs ys within =
      joins-Below (view a) _ xs (own_Below b a ys (within a (Memᴰ.head refl)))
        (λ m t. own_Below b m ys (within m (Memᴰ.tail t)))

  deliver-joins :
      (a : S) (ms : List S)
      → IsState a
      → AllStates ms
      → (c : S) × (deliver a ms ≡ some c) × IsState c × (view c ≡ joins (view a) ms)
  unfolding deliver joins
  deliver-joins a [] h all = (a, refl, h, refl)
  deliver-joins a (m ∷ ms) h all =
      let (b, merged, b_ok, seen) = merge-view a m h all.0 in
      let (c, delivered, c_ok, final) = deliver-joins b ms b_ok all.1 in
      (c, rw (merged, deliver) delivered, c_ok, final ∙ ap (λ v. joins v ms) seen)

  -- Two replicas that start with the same observation and receive the same states, each in its
  -- own order and as often as it likes, both succeed and end in states with the same observation.
  pub deliver_converges :
      (a b : S) (xs ys : List S)
      → IsState a
      → IsState b
      → view a ≡ view b
      → AllStates xs
      → AllStates ys
      → SameStates xs ys
      → (c : S) × (d : S) × (deliver a xs ≡ some c)
        × (deliver b ys ≡ some d)
        × (view c ≡ view d)
        × IsState c
        × IsState d
  deliver_converges a b xs ys ha hb e hx hy same =
      let (c, c_run, hc, c_view) = deliver-joins a xs ha hx in
      let (d, d_run, hd, d_view) = deliver-joins b ys hb hy in
      (
        c,
        d,
        c_run,
        d_run,
        c_view ∙ joins_congr (view a) xs ys same ∙ ap (λ v. joins v ys) e ∙ sym d_view,
        hc,
        hd,
      )

  -- Two replicas that, with what they hold themselves, merge the same states end in states with the
  -- same observation, wherever they started.
  pub deliver_exchange :
      (a b : S) (xs ys : List S)
      → IsState a
      → IsState b
      → AllStates xs
      → AllStates ys
      → SameStates (a ∷ xs) (b ∷ ys)
      → (c : S) × (d : S) × (deliver a xs ≡ some c)
        × (deliver b ys ≡ some d)
        × (view c ≡ view d)
        × IsState c
        × IsState d
  deliver_exchange a b xs ys ha hb hx hy same =
      let (c, c_run, hc, c_view) = deliver-joins a xs ha hx in
      let (d, d_run, hd, d_view) = deliver-joins b ys hb hy in
      let both =
        Below-antisymm _ _ (joins_within a b xs ys same.0) (joins_within b a ys xs same.1) in
      (c, d, c_run, d_run, c_view ∙ both ∙ sym d_view, hc, hd)

  -- Where a state is determined by what it shows, the laws are equations between states.
  module _ (view_injective : (a b : S) → IsState a → IsState b → view a ≡ view b → a ≡ b) where
    pub merge_comm : (a b : S) → IsState a → IsState b → merge a b ≡ merge b a
    merge_comm a b ha hb =
        let (c, run, hc, seen) = merge-view a b ha hb in
        let (d, run', hd, seen') = merge-view b a hb ha in
        run
        ∙ ap some (view_injective c d hc hd (seen ∙ join_comm (view a) (view b) ∙ sym seen'))
        ∙ sym run'

    pub merge_idem : (a : S) → IsState a → merge a a ≡ some a
    merge_idem a ha =
        let (c, run, hc, seen) = merge-view a a ha ha in
        run ∙ ap some (view_injective c a hc ha (seen ∙ join_idem (view a)))

    -- `ab` and `bc` are the results of the inner merges.
    pub merge_assoc :
        (a b c : S)
        → IsState a
        → IsState b
        → IsState c
        → (ab : S) × (bc : S) × (merge a b ≡ some ab)
          × (merge b c ≡ some bc)
          × (merge ab c ≡ merge a bc)
    merge_assoc a b c ha hb hc =
        let (ab, run, hab, seen) = merge-view a b ha hb in
        let (bc, run', hbc, seen') = merge-view b c hb hc in
        let (l, run_l, hl, seen_l) = merge-view ab c hab hc in
        let (r, run_r, hr, seen_r) = merge-view a bc ha hbc in
        let same : view l ≡ view r =
          seen_l
          ∙ ap (λ v. join v (view c)) seen
          ∙ join_assoc (view a) (view b) (view c)
          ∙ ap (join (view a)) (sym seen')
          ∙ sym seen_r in
        (ab, bc, run, run', run_l ∙ ap some (view_injective l r hl hr same) ∙ sym run_r)

    -- Replicas that start equal and receive the same states end equal.
    pub deliver_agree :
        (a : S) (xs ys : List S)
        → IsState a
        → AllStates xs
        → AllStates ys
        → SameStates xs ys
        → (c : S) × (deliver a xs ≡ some c) × (deliver a ys ≡ some c)
    deliver_agree a xs ys ha hx hy same =
        let (c, run, hc, seen) = deliver-joins a xs ha hx in
        let (d, run', hd, seen') = deliver-joins a ys ha hy in
        let e =
          view_injective d c hd hc (seen' ∙ sym (joins_congr (view a) xs ys same) ∙ sym seen) in
        (c, run, run' ∙ ap some e)
