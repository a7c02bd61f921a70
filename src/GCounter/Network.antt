-- ===== src/GCounter/Network.antt =====
-- Nodes that count locally and gossip their counters: every node increments its own count, sends
-- copies of its counter, and merges copies that it receives. Copies in flight may arrive late,
-- twice, in any order, or never. The library has no network code; this is its use by a program.
pub mod Invariant
pub mod Agreement
use mathlib.Core.List.{Memᴰ}
use mathlib.Core.Option.{some-injective}
use cauchy.Prelude.{
  update, ℕ, ◌+◌, ◌%◌, ◌≤◌, ◌<◌, ◌≡◌, refl, sym, ◌∙◌, ap, subst, max, Option, none, some, List, [],
  ◌∷◌, Bool, true, ◌==◌, leb, le→leb, replicate, if◌then◌else◌, arith, Bool-cases, inl, inr, ==_iff,
  get_or-replicate, le→ltb,
}
use cauchy.Cells.{max_nodes, u64_mod, at}
use cauchy.Cells.Bounds.{fresh-IsCells, total, total_congr, total-le}
use cauchy.GCounter.{GCounter, IsValid, init, increment, add, get, value, merge, equals}
use cauchy.GCounter.Merge.{
  merge-joined, joined, at-joined, num_nodes-joined, joined-IsValid, get-at, counter_equals_iff,
}
use cauchy.GCounter.Value.{value-add, added, add-added, at-added, added-IsValid, value-total}

-- `done i` is the number of increments at node `i` so far. No replica can see it.
pub record Net : Type 0 where
  pub replicas : ℕ → GCounter
  pub flight : List GCounter
  pub done : ℕ → ℕ

pub data Step (n : ℕ) (s : Net) : Net → Type 0 where
  bump :
      (i : ℕ) (c : GCounter)
      → i < n
      → increment (some (s.replicas i)) i ≡ some c
      → Step n s
          (record s { replicas = update s.replicas i c; done = update s.done i (s.done i + 1) })
  send : (i : ℕ) → i < n → Step n s (record s { flight = s.replicas i ∷ s.flight })
  receive :
      (i : ℕ) (m c : GCounter)
      → i < n
      → Memᴰ m s.flight
      → merge (some (s.replicas i)) (some m) ≡ some c
      → Step n s (record s { replicas = update s.replicas i c })

-- `n` nodes, from counters that were just initialized.
pub data Reach (n : ℕ) : Net → Type 0 where
  start :
      (block c : GCounter)
      → init (some block) n ≡ some c
      → Reach n (record { replicas = λ _. c; flight = []; done = λ _. 0 })
  next : {s t : Net} → Reach n s → Step n s t → Reach n t
