-- ===== src/GCounter/Network/Invariant.antt =====
-- What every reachable state of the network keeps.
use mathlib.Core.List.{Memᴰ}
use mathlib.Core.Option.{some-injective}
use cauchy.Prelude.{
  update, update_elim, ℕ, ◌+◌, ◌≤◌, ◌<◌, ◌≡◌, refl, sym, ◌∙◌, ap, subst, some, [], ◌∷◌, ◌==◌,
  le→leb, replicate, arith, Bool-cases, inl, inr, ==_iff, get_or-replicate,
}
use cauchy.Cells.{max_nodes, u64_mod, at}
use cauchy.Cells.Bounds.{fresh-IsCells}
use cauchy.GCounter.{GCounter, IsValid, init, increment}
use cauchy.GCounter.Merge.{merge-joined, joined, at-joined, num_nodes-joined, joined-IsValid}
use cauchy.GCounter.Value.{value-add, added, add-added, at-added, added-IsValid}
use cauchy.GCounter.Network.{Net, Step, bump, send, receive, Reach, start, next}

-- A counter that no more has been counted in than was done.
pub record IsSound (n : ℕ) (done : ℕ → ℕ) (gc : GCounter) : Type 0 where
  pub valid : IsValid gc
  pub nodes : gc.num_nodes ≡ n
  pub counted : (j : ℕ) → at gc.counts j ≤ done j

pub record Inv (n : ℕ) (s : Net) : Type 0 where
  pub sound : (i : ℕ) → IsSound n s.done (s.replicas i)
  pub sent : (m : GCounter) → Memᴰ m s.flight → IsSound n s.done m
  pub own : (i : ℕ) → i < n → at (s.replicas i).counts i ≡ s.done i

abbrev pub Fits : Net → Type 0
Fits s = (i : ℕ) → s.done i < u64_mod

IsSound-mono :
    {n : ℕ} {f g : ℕ → ℕ} {gc : GCounter} → ((j : ℕ) → f j ≤ g j) → IsSound n f gc → IsSound n g gc
IsSound-mono le s = record {
  valid = s.valid;
  nodes = s.nodes;
  counted = λ j. omega (arith, s.counted j, le j);
}

joined-IsSound :
    {n : ℕ} {done : ℕ → ℕ} {a b : GCounter}
    → IsSound n done a
    → IsSound n done b
    → IsSound n done (joined a b)
joined-IsSound {a} {b} sa sb = record {
  valid = joined-IsValid sa.valid sb.valid;
  nodes = omega (arith, num_nodes-joined a b, sa.nodes, sb.nodes);
  counted = λ j. omega (arith, (at-joined sa.valid sb.valid).1 j, sa.counted j, sb.counted j);
}

fresh : ℕ → GCounter
fresh n = record { counts = replicate max_nodes 0; num_nodes = n }

init-fresh :
    (n : ℕ) (block c : GCounter) → n ≤ max_nodes → init (some block) n ≡ some c → fresh n ≡ c
unfolding init fresh
init-fresh n block c few e = some-injective _ _ (rw (le→leb n max_nodes few) at e)

start-Inv :
    (n : ℕ) (block c : GCounter)
    → n ≤ max_nodes
    → init (some block) n ≡ some c
    → Inv n (record { replicas = λ _. c; flight = []; done = λ _. 0 })
unfolding fresh
start-Inv n block c few e =
    subst (λ g. Inv n (record { replicas = λ _. g; flight = []; done = λ _. 0 }))
      (init-fresh n block c few e)
      (record {
        sound = λ i. record {
          valid = fresh-IsCells n few;
          nodes = refl;
          counted = λ j. omega (arith, get_or-replicate {A = ℕ} max_nodes j 0);
        };
        sent = λ m t. elim t [ ];
        own = λ i lt. get_or-replicate {A = ℕ} max_nodes i 0;
      })

done-Step : {n : ℕ} {s t : Net} → Step n s t → (j : ℕ) → s.done j ≤ t.done j
done-Step (bump i c lt e) j = ground arith
done-Step (send i lt) j = omega arith
done-Step (receive i m c lt mem e) j = omega arith

-- A local increment that does not wrap.
bump-Inv :
    {n : ℕ} {s : Net} (i : ℕ) (c : GCounter)
    → i < n
    → increment (some (s.replicas i)) i ≡ some c
    → s.done i + 1 < u64_mod
    → Inv n s
    → Inv n (record s { replicas = update s.replicas i c; done = update s.done i (s.done i + 1) })
bump-Inv {n} {s} i c lt e fits inv =
    let old = s.replicas i in
    let before = inv.sound i in
    let active : i < old.num_nodes = omega (arith, before.nodes) in
    let result = added old i 1 in
    let cells = at-added old i 1 before.valid active in
    let same : result ≡ c =
      some-injective result c
        (sym (add-added old i 1 active) ∙ sym (value-add old i 1 before.valid).2 ∙ e) in
    let later =
      λ (j : ℕ). (let h : s.done j ≤ update s.done i (s.done i + 1) j = ground arith in h) in
    let own_count : at result.counts i ≡ s.done i + 1 = ground (arith, cells i, inv.own i lt) in
    let new : IsSound n (update s.done i (s.done i + 1)) result = record {
      valid = added-IsValid old i 1 before.valid active;
      nodes = before.nodes;
      counted = λ j. ground (arith, cells j, before.counted j, inv.own i lt);
    } in
    record {
      sound =
          update_elim (λ _ g. IsSound n (update s.done i (s.done i + 1)) g) s.replicas i c
            (subst (IsSound n (update s.done i (s.done i + 1))) same new)
            (λ j. IsSound-mono later (inv.sound j));
      sent = λ m mem. IsSound-mono later (inv.sent m mem);
      own = λ j h. elim (Bool-cases (j == i)) [
        | inl here ↦ rw here (
            ap (at c.counts) ((==_iff j i).0 here)
            ∙ subst (λ (g : GCounter). at g.counts i ≡ s.done i + 1) same own_count)
        | inr differ ↦ rw differ (inv.own j h)
      ];
    }

Step-Inv : {n : ℕ} {s t : Net} → Step n s t → Fits t → Inv n s → Inv n t
Step-Inv {s} (bump i c lt e) fits inv = bump-Inv {s = s} i c lt e (ground (arith, fits i)) inv
Step-Inv {n} {s} (send i lt) fits inv = record {
  sound = inv.sound;
  sent = λ m mem. sent_cases m mem;
  own = inv.own;
}
  where
    sent_cases : (m : GCounter) → Memᴰ m (s.replicas i ∷ s.flight) → IsSound n s.done m
    sent_cases m (Memᴰ.head h) = subst (IsSound n s.done) (sym h) (inv.sound i)
    sent_cases m (Memᴰ.tail t) = inv.sent m t
Step-Inv {n} {s} (receive i m c lt mem e) fits inv =
    let new = joined-IsSound (inv.sound i) (inv.sent m mem) in
    let same = merge-joined (s.replicas i) m c e in
    record {
      sound =
          update_elim (λ _ g. IsSound n s.done g) s.replicas i c (subst (IsSound n s.done) same new)
            inv.sound;
      sent = inv.sent;
      own =
          update_elim (λ j g. j < n → at g.counts j ≡ s.done j) s.replicas i c
            (subst (λ (g : GCounter). i < n → at g.counts i ≡ s.done i) same
              (λ _. omega (
                arith,
                (at-joined (inv.sound i).valid (inv.sent m mem).valid).1 i,
                inv.own i lt,
                (inv.sent m mem).counted i,
              )))
            inv.own;
    }

pub Reach-Inv : {n : ℕ} {s : Net} → n ≤ max_nodes → Reach n s → Fits s → Inv n s
Reach-Inv {n} few (start block c e) fits = start-Inv n block c few e
Reach-Inv few (next r st) fits =
    Step-Inv st fits (Reach-Inv few r (λ j. omega (arith, fits j, done-Step st j)))
