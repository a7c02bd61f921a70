-- ===== src/OrSet/Network/Invariant.antt =====
-- What every reachable state of a network of OR-Sets keeps.
use mathlib.Core.List.{Memᴰ}
use cauchy.Prelude.{
  ℕ, ◌+◌, ◌%◌, ◌≤◌, ◌<◌, ◌≡◌, refl, sym, ◌∙◌, ap, subst, ◌∷◌, ◌==◌, take, update, update_elim,
  arith, Bool-cases, inl, inr, ==_iff, ==_refl,
}
use cauchy.Types.{ok}
use cauchy.Cells.{u64_mod}
use cauchy.GSet.{granted}
use cauchy.OrSet.{OrSet}
use cauchy.OrSet.Local.{next_tag}
use cauchy.OrSet.Network.{Net, Step, insert, erase, send, receive, Reach, start, next, write_tag}
use cauchy.OrSet.Network.Sound.{
  IsSound, bump_le, IsSound-mono, insert-IsSound, erase-IsSound, receive-IsSound, start-IsSound,
}
use cauchy.OrSet.Network.Clocks.{clock, init-clock, add-clock, remove-clock, merge-clock}

pub record Inv (s : Net) : Type 0 where
  pub sound : (i : ℕ) → IsSound s.written s.done (s.replicas i)
  pub sent : (m : OrSet) → Memᴰ m s.flight → IsSound s.written s.done m
  pub own : (i : ℕ) → clock (s.replicas i) ≡ (i, s.done i)

abbrev pub Fits : Net → Type 0
Fits s = (i : ℕ) → s.done i < u64_mod

Step-done : {n : ℕ} {s t : Net} → Step n s t → (i : ℕ) → s.done i ≤ t.done i
Step-done {s} (insert j bytes size c lt any held run) i = bump_le s.done j i
Step-done (erase j bytes size res c lt any run) i = omega arith
Step-done (send j lt) i = omega arith
Step-done (receive j m c lt there run) i = omega arith

Step-Inv : {n : ℕ} {s t : Net} → Step n s t → Fits t → Inv s → Inv t
Step-Inv {s} (insert i bytes size c lt any held run) fits inv =
    let orset = s.replicas i in
    let here : update s.done i (s.done i + 1) i ≡ s.done i + 1 = rw (==_refl i) refl in
    let room : s.done i + 1 < u64_mod = omega (arith, fits i, here) in
    let (later, new) =
      insert-IsSound s.written s.done orset c i bytes size (inv.own i) room any held run
        (inv.sound i) in
    let le = bump_le s.done i in
    let clocks = add-clock orset c bytes size any run in
    let node = ap (λ (p : ℕ × ℕ). p.0) (inv.own i) in
    let stamp : (orset.timestamp + 1) % u64_mod ≡ s.done i + 1 =
      omega (arith, ap (λ (p : ℕ × ℕ). p.1) (inv.own i), room) in
    record {
      sound =
          update_elim
            (λ _ o.
              IsSound (write_tag s.written (next_tag orset) (take size bytes))
                (update s.done i (s.done i + 1)) o)
            s.replicas i c new (λ j. IsSound-mono (take size bytes) le later (inv.sound j));
      sent = λ m there. IsSound-mono (take size bytes) le later (inv.sent m there);
      own = λ j. elim (Bool-cases (j == i)) [
        | inl same ↦
            let mine : clock c ≡ (i, s.done i + 1) = clocks ∙ (λ k. (node k, stamp k)) in
            rw same (mine ∙ ap (λ k. (k, s.done i + 1)) (sym ((==_iff j i).0 same)))
        | inr differ ↦ rw differ (inv.own j)
      ];
    }
Step-Inv {s} (erase i bytes size res c lt any run) fits inv = record {
  sound =
      update_elim (λ _ o. IsSound s.written s.done o) s.replicas i c
        (erase-IsSound s.written s.done (s.replicas i) c bytes size res any run (inv.sound i))
        inv.sound;
  sent = inv.sent;
  own =
      update_elim (λ j o. clock o ≡ (j, s.done j)) s.replicas i c
        (remove-clock (s.replicas i) c bytes size res any run ∙ inv.own i) inv.own;
}
Step-Inv {s} (send i lt) fits inv = record {
  sound = inv.sound;
  sent = λ m there. sent_too m there;
  own = inv.own;
}
  where
    sent_too : (m : OrSet) → Memᴰ m (s.replicas i ∷ s.flight) → IsSound s.written s.done m
    sent_too m (Memᴰ.head e) = subst (IsSound s.written s.done) (sym e) (inv.sound i)
    sent_too m (Memᴰ.tail t) = inv.sent m t
Step-Inv {s} (receive i m c lt there run) fits inv = record {
  sound =
      update_elim (λ _ o. IsSound s.written s.done o) s.replicas i c
        (receive-IsSound s.written s.done (s.replicas i) m c run (inv.sound i) (inv.sent m there))
        inv.sound;
  sent = inv.sent;
  own =
      update_elim (λ j o. clock o ≡ (j, s.done j)) s.replicas i c
        (merge-clock (λ k. granted) (s.replicas i) m c ok run ∙ inv.own i) inv.own;
}

pub Reach-Inv : {n : ℕ} {s : Net} → Reach n s → Fits s → Inv s
Reach-Inv (start block replicas capacity made) fits = record {
  sound = λ i. start-IsSound (block i) (replicas i) (capacity i) i (made i);
  sent = λ m t. elim t [ ];
  own = λ i. init-clock (block i) (replicas i) (capacity i) i (made i);
}
Reach-Inv (next {s = u} {t} reach step) fits =
    Step-Inv step fits (Reach-Inv reach (λ i. omega (arith, fits i, Step-done step i)))
