-- ===== src/OrSet/Join.antt =====
-- One round of the loop of `merge`: one entry, and what the destination knows of each tag.
use cauchy.Prelude.{
  ℕ, ◌+◌, ◌%◌, ◌≤◌, ◌≡◌, sym, ap, ◌∙◌, subst, max, true, false, ◌&&◌, not, some, List, [], ◌∷◌,
  ◌==◌, get_or, set, get_or-set, length-set, if◌then◌else◌, arith, Bool-cases, inl, inr, ==_iff,
}
use cauchy.Types.{Uid, uid_equals}
use cauchy.OrSet.{OrSet, Entry}
use cauchy.OrSet.Merge.{tagged, find_by_tag, bury_tag, chain_at}
use cauchy.OrSet.Status.{
  flag, share, status, tags, IsTable, status_of, find_by_tag-some, tags-bury_tag, status-bury_tag,
  status-bury_tag_other, status-le, chain_few, tagged_sound,
}

-- A set after a write of one chain, with any counts.
abbrev pub with_chain : OrSet → ℕ → List Entry → ℕ → ℕ → ℕ → OrSet
with_chain orset h chain total active ts = record {
  buckets = set orset.buckets (h % orset.num_buckets) chain;
  num_buckets = orset.num_buckets;
  entry_count = total;
  active_count = active;
  node_id = orset.node_id;
  timestamp = ts;
}

module _ (orset : OrSet) (h : ℕ) (chain : List Entry) (total active ts : ℕ)
    (table : IsTable orset) where
  pub chain_at-with_chain :
      (h' : ℕ)
      → chain_at (with_chain orset h chain total active ts) h'
        ≡ (if h' % orset.num_buckets == h % orset.num_buckets then chain else chain_at orset h')
  chain_at-with_chain h' =
      get_or-set orset.buckets (h % orset.num_buckets) (h' % orset.num_buckets) chain []
        (omega (arith, table.width, table.some_bucket))

  pub with_chain-IsTable :
      ((h' : ℕ) (t : Uid)
        → tags h' t chain ≤ (if h' % orset.num_buckets == h % orset.num_buckets then 1 else 0))
      → IsTable (with_chain orset h chain total active ts)
  with_chain-IsTable few = record {
    width = length-set orset.buckets _ chain ∙ table.width;
    some_bucket = table.some_bucket;
    placed = λ i h' t.
        rw
          (get_or-set orset.buckets (h % orset.num_buckets) i chain []
            (omega (arith, table.width, table.some_bucket)))
          (elim (Bool-cases (i == h % orset.num_buckets)) [
            | inl here ↦ rw here (ground (arith, few h' t))
            | inr there ↦ rw there (table.placed i h' t)
          ]);
  }

-- What one round leaves: nothing new, a tombstone, or a copy of the entry.
module _ (dst : OrSet) (src : Entry) (table : IsTable dst) where
  same_bucket :
      (h : ℕ) (t : Uid)
      → (h % dst.num_buckets == src.hash % dst.num_buckets) ≡ true
      → status_of dst h t ≡ status h t (chain_at dst src.hash)
  same_bucket h t e = ap (λ k. status h t (get_or dst.buckets k [])) ((==_iff _ _).0 e)

  elsewhere :
      (h : ℕ) (t : Uid)
      → (h % dst.num_buckets == src.hash % dst.num_buckets) ≡ false
      → share h t src ≡ 0
  elsewhere h t e = elim (Bool-cases (tagged h t src)) [
    | inl hit ↦
        let same = ap (λ k. k % dst.num_buckets) (tagged_sound h t src hit).0 in
        absurd (ground arith)
    | inr miss ↦ rw miss
  ]

  tags_copied :
      (h : ℕ) (t : Uid)
      → tags src.hash src.tag (chain_at dst src.hash) ≡ 0
      → (if tagged h t src then 1 else 0) + tags h t (chain_at dst src.hash)
        ≤ (if h % dst.num_buckets == src.hash % dst.num_buckets then 1 else 0)
  tags_copied h t fresh = elim (Bool-cases (tagged h t src)) [
    | inl hit ↦
        let (hash, tag) = tagged_sound h t src hit in
        let none_yet : tags h t (chain_at dst src.hash) ≡ 0 =
          subst (λ k. tags k t (chain_at dst src.hash) ≡ 0) hash
            (subst (λ u. tags src.hash u (chain_at dst src.hash) ≡ 0) tag fresh) in
        let here : (h % dst.num_buckets == src.hash % dst.num_buckets) ≡ true =
          (==_iff _ _).1 (ap (λ k. k % dst.num_buckets) (sym hash)) in
        rw (hit, here, none_yet) (omega arith)
    | inr miss ↦ rw miss (omega (arith, table.placed (src.hash % dst.num_buckets) h t))
  ]

  pub copied-join :
      (total active ts : ℕ) (bytes : List ℕ)
      → tags src.hash src.tag (chain_at dst src.hash) ≡ 0
      → let copy = record src { bytes = bytes } in
        let c = with_chain dst src.hash (copy ∷ chain_at dst src.hash) total active ts in
        IsTable c × ((h : ℕ) (t : Uid) → status_of c h t ≡ max (status_of dst h t) (share h t src))
  copied-join total active ts bytes fresh =
      let chain = record src { bytes = bytes } ∷ chain_at dst src.hash in
      (
        with_chain-IsTable dst src.hash chain total active ts table (λ h t. tags_copied h t fresh),
        λ h t.
            rw (chain_at-with_chain dst src.hash chain total active ts table h)
              (elim (Bool-cases (h % dst.num_buckets == src.hash % dst.num_buckets)) [
                | inl here ↦ rw here (omega (arith, same_bucket h t here))
                | inr there ↦ rw there (omega (arith, elsewhere h t there))
              ]),
      )

  tagged_swap :
      (h : ℕ) (t : Uid) → tagged h t src ≡ false → (h == src.hash && uid_equals t src.tag) ≡ false
  unfolding uid_equals
  tagged_swap h t miss = ground arith

  buried_status :
      (h : ℕ) (t : Uid)
      → tags src.hash src.tag (chain_at dst src.hash) ≡ 1
      → src.removed ≡ true
      → status h t (bury_tag src.hash src.tag (chain_at dst src.hash))
        ≡ max (status h t (chain_at dst src.hash)) (share h t src)
  buried_status h t one gone = elim (Bool-cases (tagged h t src)) [
    | inl hit ↦
        let (hash, tag) = tagged_sound h t src hit in
        let two : status h t (bury_tag src.hash src.tag (chain_at dst src.hash)) ≡ 2 =
          subst (λ k. status k t (bury_tag src.hash src.tag (chain_at dst src.hash)) ≡ 2) hash
            (subst (λ u. status src.hash u (bury_tag src.hash src.tag (chain_at dst src.hash)) ≡ 2)
              tag (status-bury_tag src.hash src.tag (chain_at dst src.hash) one)) in
        two ∙ rw (hit, gone) (omega (arith, status-le h t (chain_at dst src.hash)))
    | inr miss ↦
        status-bury_tag_other src.hash h src.tag t (chain_at dst src.hash) (tagged_swap h t miss)
        ∙ rw miss (omega arith)
  ]

  pub buried-join :
      (total active : ℕ)
      → tags src.hash src.tag (chain_at dst src.hash) ≡ 1
      → src.removed ≡ true
      → let chain = bury_tag src.hash src.tag (chain_at dst src.hash) in
        let c = with_chain dst src.hash chain total active dst.timestamp in
        IsTable c × ((h : ℕ) (t : Uid) → status_of c h t ≡ max (status_of dst h t) (share h t src))
  buried-join total active one gone =
      let chain = bury_tag src.hash src.tag (chain_at dst src.hash) in
      (
        with_chain-IsTable dst src.hash chain total active dst.timestamp table (λ h t.
            rw (tags-bury_tag src.hash h src.tag t (chain_at dst src.hash))
              (table.placed (src.hash % dst.num_buckets) h t)),
        λ h t.
            rw (chain_at-with_chain dst src.hash chain total active dst.timestamp table h)
              (elim (Bool-cases (h % dst.num_buckets == src.hash % dst.num_buckets)) [
                | inl here ↦ rw here (
                    buried_status h t one gone
                    ∙ ap (λ k. max k (share h t src)) (sym (same_bucket h t here)))
                | inr there ↦ rw there (omega (arith, elsewhere h t there))
              ]),
      )

  -- A tombstone that the destination has, or an entry that both have as active.
  pub known-join :
      (existing : Entry)
      → find_by_tag src.hash src.tag (chain_at dst src.hash) ≡ some existing
      → (src.removed && not existing.removed) ≡ false
      → (h : ℕ) (t : Uid) → status_of dst h t ≡ max (status_of dst h t) (share h t src)
  known-join existing run level h t = elim (Bool-cases (tagged h t src)) [
    | inl hit ↦
        let (hash, tag) = tagged_sound h t src hit in
        let (seen, _) =
          find_by_tag-some src.hash src.tag (chain_at dst src.hash) existing run
            (chain_few dst src.hash src.tag table) in
        let known : status_of dst h t ≡ flag existing =
          subst (λ k. status_of dst k t ≡ flag existing) hash
            (subst (λ u. status_of dst src.hash u ≡ flag existing) tag seen) in
        rw hit (ground (arith, known))
    | inr miss ↦ rw miss (omega arith)
  ]
