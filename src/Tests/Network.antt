-- ===== src/Tests/Network.antt =====
-- A run of three replicas of an OR-Set, and the theorems about networks at it.
use mathlib.Core.List.{Memᴰ}
use cauchy.Prelude.{
  ℕ, ◌+◌, ◌≤◌, ◌<◌, ◌≡◌, refl, true, false, some, List, [], ◌∷◌, list_eq, length, take, arith,
  update, Bool-cases, inl, inr, ◌==◌,
}
use cauchy.Types.{Uid, ok}
use cauchy.Convergence.{SameStates, deliver}
use cauchy.GSet.{granted, hash_data, xor}
use cauchy.OrSet.{OrSet, init, add, remove, contains}
use cauchy.OrSet.Merge.{merge}
use cauchy.OrSet.Replicas.{or_sets, succeeded}
use cauchy.OrSet.Local.{next_tag}
use cauchy.OrSet.Network.{Net, Reach, start, next, insert, send, write_tag}
use cauchy.OrSet.Network.Invariant.{Fits}
use cauchy.OrSet.Network.Agreement.{network_converges, network_members_added, network_add_wins}
use cauchy.Tests.OrSet.{a, empty, one, add_run}

abbrev net0 : Net
net0 = record { replicas = empty; flight = []; done = λ i. 0; written = λ t. [] }

-- Node 1 added "a".
abbrev net1 : Net
net1 = record net0 {
  replicas = update net0.replicas 1 one;
  done = update net0.done 1 (net0.done 1 + 1);
  written = write_tag net0.written (next_tag (net0.replicas 1)) (take 1 a);
}

-- Nodes 1 and 0 sent copies.
abbrev net3 : Net
net3 = record net1 { flight = empty 0 ∷ one ∷ [] }

init_run : (i : ℕ) → init true true (some (empty i)) 2 i ≡ (ok, some (empty i))
unfolding init
init_run i = refl

reach : Reach 3 net3
reach =
    next
      (next
        (next (start empty empty (λ i. 2) init_run)
          (insert 1 a 1 one (omega arith) (omega arith) (omega arith) add_run))
        (send 1 (omega arith)))
      (send 0 (omega arith))

done-Fits : Fits net3
done-Fits i = elim (Bool-cases (i == 1)) [
  | inl own ↦ rw own (omega arith)
  | inr other ↦ rw other (omega arith)
]

same : SameStates (or_sets net3.written) (one ∷ empty 0 ∷ []) (empty 0 ∷ one ∷ [])
same = (there, there')
  where
    there : (m : OrSet) → Memᴰ m (one ∷ empty 0 ∷ []) → Memᴰ m (empty 0 ∷ one ∷ [])
    there m (Memᴰ.head e) = Memᴰ.tail (Memᴰ.head e)
    there m (Memᴰ.tail (Memᴰ.head e)) = Memᴰ.head e
    there m (Memᴰ.tail (Memᴰ.tail t)) = elim t [ ]

    there' : (m : OrSet) → Memᴰ m (empty 0 ∷ one ∷ []) → Memᴰ m (one ∷ empty 0 ∷ [])
    there' m (Memᴰ.head e) = Memᴰ.tail (Memᴰ.head e)
    there' m (Memᴰ.tail (Memᴰ.head e)) = Memᴰ.head e
    there' m (Memᴰ.tail (Memᴰ.tail t)) = elim t [ ]

network_converges_example :
    (c : OrSet) × (d : OrSet) × (deliver (or_sets net3.written) one (empty 0 ∷ []) ≡ some c)
    × (deliver (or_sets net3.written) (empty 0) (one ∷ []) ≡ some d)
    × ((bytes : List ℕ) (size : ℕ)
        → contains (some c) (some bytes) size ≡ contains (some d) (some bytes) size)
network_converges_example =
    network_converges 1 0 (empty 0 ∷ []) (one ∷ []) reach done-Fits (Memᴰ.head refl, tt)
      (Memᴰ.tail (Memᴰ.head refl), tt) same

member : contains (some one) (some a) 1 ≡ true
unfolding contains hash_data xor list_eq
member = refl

network_members_added_example :
    (t : Uid) × (t.timestamp ≤ net3.done t.node_id)
    × (net3.written t ≡ take 1 a)
    × (1 ≡ length (net3.written t))
    × (0 < 1)
network_members_added_example = network_members_added 1 a 1 reach done-Fits member

network_add_wins_example :
    (a' : OrSet) × (b' : OrSet) × (ab : OrSet) × (ba : OrSet) × ((remove (some one) (some a) 1).1
      ≡ some a')
    × (contains (some a') (some a) 1 ≡ false)
    × (add granted (some (empty 2)) (some a) 1 ≡ (ok, some b'))
    × (succeeded (merge (λ k. granted) (some a') (some b')) ≡ some ab)
    × (succeeded (merge (λ k. granted) (some b') (some a')) ≡ some ba)
    × (contains (some ab) (some a) 1 ≡ true)
    × (contains (some ba) (some a) 1 ≡ true)
network_add_wins_example =
    network_add_wins 1 2 a 1 reach done-Fits (omega arith) (omega arith) (omega arith)
