-- ===== src/OrSet/Network.antt =====
-- Replicas of an OR-Set that add, remove and gossip: every node changes its own set, sends copies of
-- it, and merges copies that it receives. Copies in flight may arrive late, twice, in any order, or
-- never. The library has no network code; this is its use by a program.
pub mod Clocks
pub mod Sound
pub mod Invariant
pub mod Agreement
use mathlib.Core.List.{Memᴰ}
use cauchy.Prelude.{
  ℕ, ◌+◌, ◌≤◌, ◌<◌, ◌≡◌, Option, some, List, [], ◌∷◌, length, take, update, if◌then◌else◌, true,
}
use cauchy.Types.{Uid, uid_equals, Result, ok}
use cauchy.GSet.{granted}
use cauchy.OrSet.{OrSet, init, add, remove}
use cauchy.OrSet.Merge.{merge}
use cauchy.OrSet.Local.{next_tag}

-- `done i` is the number of additions at node `i` so far, and `written t` is what was added under
-- the tag `t`. No replica can see them.
pub record Net : Type 0 where
  pub replicas : ℕ → OrSet
  pub flight : List OrSet
  pub done : ℕ → ℕ
  pub written : Uid → List ℕ

-- What was written, once `bytes` are added under `t`.
abbrev pub write_tag : (Uid → List ℕ) → Uid → List ℕ → Uid → List ℕ
write_tag written t bytes u = if uid_equals u t then bytes else written u

-- A buffer is as long as its declared size at least. Calls with memory; a call without memory leaves
-- the sets as they are, or merges a part.
pub data Step (n : ℕ) (s : Net) : Net → Type 0 where
  insert :
      (i : ℕ) (bytes : List ℕ) (size : ℕ) (c : OrSet)
      → i < n
      → 0 < size
      → size ≤ length bytes
      → add granted (some (s.replicas i)) (some bytes) size ≡ (ok, some c)
      → Step n s (record s {
        replicas = update s.replicas i c;
        done = update s.done i (s.done i + 1);
        written = write_tag s.written (next_tag (s.replicas i)) (take size bytes);
      })
  erase :
      (i : ℕ) (bytes : List ℕ) (size : ℕ) (res : Result) (c : OrSet)
      → i < n
      → 0 < size
      → remove (some (s.replicas i)) (some bytes) size ≡ (res, some c)
      → Step n s (record s { replicas = update s.replicas i c })
  send : (i : ℕ) → i < n → Step n s (record s { flight = s.replicas i ∷ s.flight })
  receive :
      (i : ℕ) (m c : OrSet)
      → i < n
      → Memᴰ m s.flight
      → merge (λ k. granted) (some (s.replicas i)) (some m) ≡ (ok, some c)
      → Step n s (record s { replicas = update s.replicas i c })

-- `n` nodes, each with a set of its own that was just initialized with its number.
pub data Reach (n : ℕ) : Net → Type 0 where
  start :
      (block replicas : ℕ → OrSet) (capacity : ℕ → ℕ)
      → ((i : ℕ) → init true true (some (block i)) (capacity i) i ≡ (ok, some (replicas i)))
      → Reach n (record { replicas = replicas; flight = []; done = λ i. 0; written = λ t. [] })
  next : {s t : Net} → Reach n s → Step n s t → Reach n t
