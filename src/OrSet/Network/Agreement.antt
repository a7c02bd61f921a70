-- ===== src/OrSet/Network/Agreement.antt =====
-- What the replicas of a network of OR-Sets show.
use mathlib.Core.List.{Memᴰ}
use cauchy.Prelude.{
  ℕ, ◌+◌, ◌%◌, ◌≤◌, ◌<◌, ◌≡◌, refl, sym, ap, ◌∙◌, true, false, some, List, [], ◌∷◌, ◌==◌, ltb,
  length, take, take_all, arith, Bool-cases, inl, inr, Bool_ext,
}
use cauchy.Types.{Uid, uid_create, ok}
use cauchy.Cells.{u64_mod}
use cauchy.Convergence.{SameStates, AllStates, deliver, deliver_exchange}
use cauchy.GSet.{granted, hash_data}
use cauchy.OrSet.{OrSet, add, remove, contains}
use cauchy.OrSet.Merge.{merge, chain_at}
use cauchy.OrSet.Status.{chain_few, uid_equals_refl}
use cauchy.OrSet.Content.{found-status, same_status-contains}
use cauchy.OrSet.Replicas.{Statuses, or_sets, succeeded}
use cauchy.OrSet.Local.{next_tag}
use cauchy.OrSet.AddWins.{orset_add_wins}
use cauchy.OrSet.Network.{Net, Reach, write_tag}
use cauchy.OrSet.Network.Sound.{write_tag-IsWritten}
use cauchy.OrSet.Network.Invariant.{Inv, Fits, Reach-Inv}

-- All in flight.
abbrev pub AllSent : Net → List OrSet → Type 0
AllSent s [] = Unit
AllSent s (m ∷ ms) = Memᴰ m s.flight × AllSent s ms

sent-AllStates :
    (s : Net) (ms : List OrSet) → Inv s → AllSent s ms → AllStates (or_sets s.written) ms
sent-AllStates s [] inv sent = tt
sent-AllStates s (m ∷ ms) inv sent = ((inv.sent m sent.0).content, sent-AllStates s ms inv sent.1)

-- In every state that the nodes can reach, none of which made 2 ^ 64 additions: two replicas that
-- merge states in flight, so that with their own the same states are merged on both sides, succeed,
-- with memory, and have the same members afterwards. Order and repetitions make no difference.
pub network_converges :
    {n : ℕ} {s : Net} (i j : ℕ) (xs ys : List OrSet)
    → Reach n s
    → Fits s
    → AllSent s xs
    → AllSent s ys
    → SameStates (or_sets s.written) (s.replicas i ∷ xs) (s.replicas j ∷ ys)
    → (c : OrSet) × (d : OrSet) × (deliver (or_sets s.written) (s.replicas i) xs ≡ some c)
      × (deliver (or_sets s.written) (s.replicas j) ys ≡ some d)
      × ((bytes : List ℕ) (size : ℕ)
          → contains (some c) (some bytes) size ≡ contains (some d) (some bytes) size)
network_converges {s} i j xs ys reach fits hx hy same =
    let inv = Reach-Inv reach fits in
    let crdt = or_sets s.written in
    let (c, d, run, run', seen, wc, wd) =
      deliver_exchange crdt (s.replicas i) (s.replicas j) xs ys (inv.sound i).content
        (inv.sound j).content (sent-AllStates s xs inv hx) (sent-AllStates s ys inv hy) same in
    let at = λ (h : ℕ) (t : Uid). ap (λ (f : Statuses). f h t) seen in
    (
      c,
      d,
      run,
      run',
      λ bytes size.
          Bool_ext _ _ (same_status-contains s.written c d bytes size wc wd at)
            (same_status-contains s.written d c bytes size wd wc (λ h t. sym (at h t))),
    )

-- In every state that the nodes can reach, none of which made 2 ^ 64 additions, a member of a replica
-- was added: there is a tag, its time no more than the additions of its node, under which just these
-- bytes were written, and they are not empty.
pub network_members_added :
    {n : ℕ} {s : Net} (i : ℕ) (bytes : List ℕ) (size : ℕ)
    → Reach n s
    → Fits s
    → contains (some (s.replicas i)) (some bytes) size ≡ true
    → (t : Uid) × (t.timestamp ≤ s.done t.node_id)
      × (s.written t ≡ take size bytes)
      × (size ≡ length (s.written t))
      × (0 < size)
unfolding contains
network_members_added {s} i bytes size reach fits hit =
    let inv = Reach-Inv reach fits in
    let orset = s.replicas i in
    let sound = inv.sound i in
    let h = hash_data bytes size in
    elim (Bool-cases (size == 0)) [
      | inl empty ↦ absurd (cc (rw empty at hit))
      | inr any ↦
          let (t, active, long, same) =
            found-status s.written h bytes size (chain_at orset h) (sound.content.agrees _)
              (λ t. chain_few orset h t sound.content.table) (rw any at hit) in
          (
            t,
            elim (Bool-cases (ltb (s.done t.node_id) t.timestamp)) [
              | inl late ↦ absurd (cc (active, sound.old h t (ground (arith, late))))
              | inr early ↦ ground (arith, early)
            ],
            sym (ap (λ (k : ℕ). take k (s.written t)) long ∙ take_all (s.written t)) ∙ same,
            long,
            ground (arith, any),
          )
    ]

-- From every state that the nodes can reach, none of which made 2 ^ 64 - 1 additions: when one
-- replica removes an element while another adds it, the element is a member of both after they
-- merged each other, with memory.
pub network_add_wins :
    {n : ℕ} {s : Net} (i j : ℕ) (bytes : List ℕ) (size : ℕ)
    → Reach n s
    → Fits s
    → s.done j + 1 < u64_mod
    → 0 < size
    → size ≤ length bytes
    → (a' : OrSet) × (b' : OrSet) × (ab : OrSet) × (ba : OrSet) × ((remove
          (some (s.replicas i))
          (some bytes)
          size).1
        ≡ some a')
      × (contains (some a') (some bytes) size ≡ false)
      × (add granted (some (s.replicas j)) (some bytes) size ≡ (ok, some b'))
      × (succeeded (merge (λ k. granted) (some a') (some b')) ≡ some ab)
      × (succeeded (merge (λ k. granted) (some b') (some a')) ≡ some ba)
      × (contains (some ab) (some bytes) size ≡ true)
      × (contains (some ba) (some bytes) size ≡ true)
unfolding uid_create
network_add_wins {s} i j bytes size reach fits room any held =
    let inv = Reach-Inv reach fits in
    let a = s.replicas i in
    let b = s.replicas j in
    let t = next_tag b in
    let written = write_tag s.written t (take size bytes) in
    let later : s.done b.node_id < (b.timestamp + 1) % u64_mod =
      omega
        (arith, ap (λ (p : ℕ × ℕ). s.done p.0) (inv.own j), ap (λ (p : ℕ × ℕ). p.1) (inv.own j)) in
    let new_a = λ (h : ℕ). (inv.sound i).old h t later in
    let new_b = λ (h : ℕ). (inv.sound j).old h t later in
    orset_add_wins written a b bytes size
      (write_tag-IsWritten s.written t (take size bytes) a new_a (inv.sound i).content)
      (write_tag-IsWritten s.written t (take size bytes) b new_b (inv.sound j).content) any held
      (rw (uid_equals_refl t) refl) (new_a (hash_data bytes size)) (new_b (hash_data bytes size))
