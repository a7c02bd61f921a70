-- ===== src/GCounter/Network/Agreement.antt =====
-- What the replicas of a network show, while they differ and once they agree.
use cauchy.Prelude.{ℕ, ◌%◌, ◌≤◌, ◌<◌, ◌≡◌, ◌∙◌, ap, some, true, arith}
use cauchy.Cells.{max_nodes, u64_mod, at}
use cauchy.Cells.Bounds.{total, total_congr}
use cauchy.GCounter.{GCounter, IsValid, get, value, equals}
use cauchy.GCounter.Merge.{get-at, counter_equals_iff}
use cauchy.GCounter.Value.{value-total}
use cauchy.GCounter.Network.{Net, Reach}
use cauchy.GCounter.Network.Invariant.{Reach-Inv}

-- In every state that at most 64 nodes can reach, none of which made 2 ^ 64 increments, every
-- replica is well formed, shows no more increments of any node than that node made, and shows all of its own.
pub replicas_sound :
    {n : ℕ} {s : Net}
    → n ≤ max_nodes
    → Reach n s
    → ((i : ℕ) → s.done i < u64_mod)
    → (i : ℕ) → i < n
    → IsValid (s.replicas i)
      × ((j : ℕ) → get (some (s.replicas i)) j ≤ s.done j)
      × (get (some (s.replicas i)) i ≡ s.done i)
replicas_sound {s} few r fits i lt =
    let inv = Reach-Inv few r fits in
    let sound = inv.sound i in
    let read = get-at (s.replicas i) sound.valid in
    (sound.valid, λ j. omega (arith, read j, sound.counted j), omega (arith, read i, inv.own i lt))

-- Once all replicas of at most 64 nodes are equal, none of which made 2 ^ 64 increments, the value
-- of each is the number of all increments that were ever made, in 64 bits: gossip lost none and counted none twice.
pub agreed_value :
    {n : ℕ} {s : Net}
    → n ≤ max_nodes
    → Reach n s
    → ((i : ℕ) → s.done i < u64_mod)
    → ((i j : ℕ) → i < n → j < n → equals (some (s.replicas i)) (some (s.replicas j)) ≡ true)
    → (i : ℕ) → i < n
    → value (some (s.replicas i)) ≡ total n s.done % u64_mod
agreed_value {n} {s} few r fits agree i lt =
    let inv = Reach-Inv few r fits in
    let same = λ (j : ℕ) (h : j < n).
      (counter_equals_iff (s.replicas i) (s.replicas j) (inv.sound i).valid (inv.sound j).valid).0
        (agree i j lt h) in
    let count =
      λ (j : ℕ) (h : j < n). ap (λ (g : GCounter). at g.counts j) (same j h) ∙ inv.own j h in
    value-total (s.replicas i)
    ∙ ap (λ m. total m (at (s.replicas i).counts) % u64_mod) (inv.sound i).nodes
    ∙ ap (λ m. m % u64_mod) (total_congr n (at (s.replicas i).counts) s.done count)
