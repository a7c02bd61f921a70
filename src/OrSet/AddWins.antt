-- ===== src/OrSet/AddWins.antt =====
-- A removal, and a concurrent addition of the same element.
use cauchy.Prelude.{
  ℕ, ◌%◌, ◌≤◌, ◌<◌, ◌≡◌, sym, ap, ◌∙◌, true, false, Option, some, List, ◌==◌, length, get_or, take,
  take-take, length-take, if◌then◌else◌, arith, Bool-cases, inl, inr, ==_refl, ==_iff, [],
}
use cauchy.Types.{Uid, Result, ok, err_notfound}
use cauchy.GSet.{granted, hash_data}
use cauchy.OrSet.{OrSet, entry_of, found, bury, uncount, add, remove, contains}
use cauchy.OrSet.Merge.{tagged, chain_at, merge}
use cauchy.OrSet.Status.{status, status_of, uid_equals_refl}
use cauchy.OrSet.Join.{with_chain, chain_at-with_chain, with_chain-IsTable}
use cauchy.OrSet.Content.{IsWritten, status-found}
use cauchy.OrSet.Replicas.{Statuses, set-Agrees, succeeded, merge-status}
use cauchy.OrSet.Local.{
  next_tag, add-status, Differs, tags-bury, status-bury, found-bury, bury-Agrees, found-bury_other,
}

-- A removal, as far as the tags go.
module _ (written : Uid → List ℕ) (orset : OrSet) (bytes : List ℕ) (size : ℕ)
    (w : IsWritten written orset) (any : 0 < size) where
  abbrev pub left : ℕ
  left = let h = hash_data bytes size in uncount h bytes size (chain_at orset h) orset.active_count

  abbrev pub buried : OrSet
  buried =
      let h = hash_data bytes size in
      with_chain orset h (bury h bytes size (chain_at orset h)) orset.entry_count left
        orset.timestamp

  pub remove-buried :
      remove (some orset) (some bytes) size
      ≡ (if contains (some orset) (some bytes) size then ok else err_notfound, some buried)
  unfolding remove contains
  remove-buried = let used : (size == 0) ≡ false = ground arith in rw used

  chain_at-buried :
      (h : ℕ)
      → chain_at buried h ≡ (
          if h % orset.num_buckets == hash_data bytes size % orset.num_buckets
          then bury (hash_data bytes size) bytes size (chain_at orset (hash_data bytes size))
          else chain_at orset h)
  chain_at-buried h =
      chain_at-with_chain orset (hash_data bytes size) _ orset.entry_count left orset.timestamp
        w.table h

  pub buried-IsWritten : IsWritten written buried
  buried-IsWritten =
      let h = hash_data bytes size in
      record {
        table = with_chain-IsTable orset h _ orset.entry_count left orset.timestamp w.table (λ k t.
            rw (tags-bury h bytes size k t (chain_at orset h))
              (w.table.placed (h % orset.num_buckets) k t));
        agrees =
            set-Agrees written orset.buckets (h % orset.num_buckets) _
              (omega (arith, w.table.width, w.table.some_bucket)) w.agrees
              (bury-Agrees written h bytes size (chain_at orset h) (w.agrees _));
      }

  pub buried-unknown : (k : ℕ) (t : Uid) → status_of orset k t ≡ 0 → status_of buried k t ≡ 0
  buried-unknown k t unknown =
      rw (chain_at-buried k)
        (elim (Bool-cases (k % orset.num_buckets == hash_data bytes size % orset.num_buckets)) [
          | inl here ↦
              let same = ap (λ i. status k t (get_or orset.buckets i [])) ((==_iff _ _).0 here) in
              rw here (
                (status-bury (hash_data bytes size) bytes size k t
                    (chain_at orset (hash_data bytes size))).1
                  (sym same ∙ unknown))
          | inr there ↦ rw there unknown
        ])

  buried-others :
      (other : List ℕ) (size' : ℕ)
      → Differs other size' bytes size
      → contains (some buried) (some other) size' ≡ contains (some orset) (some other) size'
  unfolding contains
  buried-others other size' differs =
      let h = hash_data bytes size in
      let k = hash_data other size' in
      elim (Bool-cases (k % orset.num_buckets == h % orset.num_buckets)) [
        | inl here ↦
            let same = ap (λ i. get_or orset.buckets i []) ((==_iff _ _).0 here) in
            rw
              (
                chain_at-buried k,
                here,
                found-bury_other h k bytes other size size' (chain_at orset h) differs,
              )
              (ap (λ xs. if size' == 0 then false else found k other size' xs) (sym same))
        | inr there ↦ rw (chain_at-buried k, there)
      ]

  buried-gone : contains (some buried) (some bytes) size ≡ false
  unfolding contains
  buried-gone =
      let used : (size == 0) ≡ false = ground arith in
      let h = hash_data bytes size in
      rw (
        used,
        chain_at-buried h,
        ==_refl (h % orset.num_buckets),
        found-bury h bytes size (chain_at orset h),
      )

  -- A removal succeeds exactly where the element is a member, and leaves a well-formed set of which
  -- it is no member, and of which every other byte string is a member as before.
  pub orset_remove :
      (c : OrSet) × (remove (some orset) (some bytes) size
        ≡ (if contains (some orset) (some bytes) size then ok else err_notfound, some c))
      × IsWritten written c
      × (contains (some c) (some bytes) size ≡ false)
      × ((other : List ℕ) (size' : ℕ)
          → Differs other size' bytes size
          → contains (some c) (some other) size' ≡ contains (some orset) (some other) size')
  orset_remove = (buried, remove-buried, buried-IsWritten, buried-gone, buried-others)

-- An active tag, and what was written under it.
module _ (written : Uid → List ℕ) where
  known-contains :
      (orset : OrSet) (bytes : List ℕ) (size : ℕ) (t : Uid)
      → IsWritten written orset
      → 0 < size
      → size ≤ length bytes
      → written t ≡ take size bytes
      → status_of orset (hash_data bytes size) t ≡ 1
      → contains (some orset) (some bytes) size ≡ true
  unfolding contains
  known-contains orset bytes size t w any held wrote active =
      let used : (size == 0) ≡ false = ground arith in
      let long : size ≡ length (written t) =
        omega (arith, ap length wrote, length-take size bytes) in
      rw used (
        status-found written (hash_data bytes size) bytes size t
          (chain_at orset (hash_data bytes size)) (w.agrees _) active long
          (ap (take size) wrote ∙ take-take size bytes))

  -- While one replica removes an element, another adds it under a tag that neither knows. Then the
  -- element is a member of both after they merged each other, with memory: the addition wins.
  pub orset_add_wins :
      (a b : OrSet) (bytes : List ℕ) (size : ℕ)
      → IsWritten written a
      → IsWritten written b
      → 0 < size
      → size ≤ length bytes
      → written (next_tag b) ≡ take size bytes
      → status_of a (hash_data bytes size) (next_tag b) ≡ 0
      → status_of b (hash_data bytes size) (next_tag b) ≡ 0
      → (a' : OrSet) × (b' : OrSet) × (ab : OrSet) × (ba : OrSet) × ((remove
            (some a)
            (some bytes)
            size).1
          ≡ some a')
        × (contains (some a') (some bytes) size ≡ false)
        × (add granted (some b) (some bytes) size ≡ (ok, some b'))
        × (succeeded (merge (λ i. granted) (some a') (some b')) ≡ some ab)
        × (succeeded (merge (λ i. granted) (some b') (some a')) ≡ some ba)
        × (contains (some ab) (some bytes) size ≡ true)
        × (contains (some ba) (some bytes) size ≡ true)
  orset_add_wins a b bytes size wa wb any held wrote new_a new_b =
      let h = hash_data bytes size in
      let u = next_tag b in
      let a' = buried written a bytes size wa any in
      let wa' = buried-IsWritten written a bytes size wa any in
      let unknown = buried-unknown written a bytes size wa any h u new_a in
      let (b', run, wb', knows) = add-status written b bytes size wb any held wrote new_b in
      let tag : tagged h u (entry_of b bytes size) ≡ true = rw (==_refl h, uid_equals_refl u) in
      let active : status_of b' h u ≡ 1 = knows h u ∙ rw (new_b, tag) (omega arith) in
      let (ab, run_ab, w_ab, seen_ab) = merge-status written a' b' wa' wb' in
      let (ba, run_ba, w_ba, seen_ba) = merge-status written b' a' wb' wa' in
      let ab_active : status_of ab h u ≡ 1 =
        ap (λ (f : Statuses). f h u) seen_ab ∙ rw (unknown, active) (omega arith) in
      let ba_active : status_of ba h u ≡ 1 =
        ap (λ (f : Statuses). f h u) seen_ba ∙ rw (unknown, active) (omega arith) in
      (
        a',
        b',
        ab,
        ba,
        ap (λ (r : Result × Option OrSet). r.1) (remove-buried written a bytes size wa any),
        buried-gone written a bytes size wa any,
        run,
        run_ab,
        run_ba,
        known-contains ab bytes size u w_ab any held wrote ab_active,
        known-contains ba bytes size u w_ba any held wrote ba_active,
      )
