-- ===== src/OrSet/Replicas.antt =====
-- OR-Sets among the replicated types, seen as what they know of each tag.
use cauchy.Prelude.{
  ℕ, ◌+◌, ◌%◌, ◌<◌, ◌≡◌, sym, ap, ◌∙◌, subst, max, ◌&&◌, not, Option, none, some, List, [], ◌∷◌,
  ◌==◌, length, get_or, set, get_or-set, take, arith, Bool-cases, Option-cases, inl, inr, fun_ext,
  take_all, zero, suc, ◌++◌, Bool_ext,
}
use cauchy.Types.{Uid, Result, ok}
use cauchy.Convergence.{Semilattice, Crdt, SameStates, AllStates, deliver, deliver_converges}
use cauchy.Chains.{chains}
use cauchy.GSet.{granted}
use cauchy.OrSet.{OrSet, Entry, contains}
use cauchy.OrSet.Merge.{
  tagged, find_by_tag, bury_tag, chain_at, merge_entry, merge_all, entries, merge,
}
use cauchy.OrSet.Status.{status_of, status-entries}
use cauchy.OrSet.Content.{Agrees, IsWritten, same_status-contains}
use cauchy.OrSet.Converge.{merge_entry-Joins, merge_all-Joins}

abbrev pub Statuses : Type 0
Statuses = ℕ → Uid → ℕ

abbrev pub join_statuses : Statuses → Statuses → Statuses
join_statuses f g h t = max (f h t) (g h t)

Statuses_ext : (f g : Statuses) → ((h : ℕ) (t : Uid) → f h t ≡ g h t) → f ≡ g
Statuses_ext f g e = fun_ext (λ h. fun_ext (e h))

pub statuses_comm : (f g : Statuses) → join_statuses f g ≡ join_statuses g f
statuses_comm f g = Statuses_ext _ _ (λ h t. omega arith)

pub statuses_assoc :
    (f g k : Statuses) → join_statuses (join_statuses f g) k ≡ join_statuses f (join_statuses g k)
statuses_assoc f g k = Statuses_ext _ _ (λ h t. omega arith)

pub statuses_idem : (f : Statuses) → join_statuses f f ≡ f
statuses_idem f = Statuses_ext _ _ (λ h t. omega arith)

abbrev pub statuses : Semilattice Statuses
statuses = record {
  join = join_statuses;
  join_comm = statuses_comm;
  join_assoc = statuses_assoc;
  join_idem = statuses_idem;
}

-- A merge that succeeded.
abbrev pub succeeded : Result × Option OrSet → Option OrSet
succeeded (ok, orset) = orset
succeeded (_, orset) = none

module _ (written : Uid → List ℕ) where
  bury_tag-Agrees :
      (h : ℕ) (t : Uid) (xs : List Entry) → Agrees written xs → Agrees written (bury_tag h t xs)
  unfolding bury_tag
  bury_tag-Agrees h t [] agrees = tt
  bury_tag-Agrees h t (e ∷ xs) agrees = elim (Bool-cases (tagged h t e)) [
    | inl hit ↦ rw hit agrees
    | inr miss ↦ rw miss (agrees.0, bury_tag-Agrees h t xs agrees.1)
  ]

  pub set-Agrees :
      (buckets : List (List Entry)) (i : ℕ) (chain : List Entry)
      → i < length buckets
      → ((j : ℕ) → Agrees written (get_or buckets j []))
      → Agrees written chain
      → (j : ℕ) → Agrees written (get_or (set buckets i chain) j [])
  set-Agrees buckets i chain lt all agrees j =
      rw (get_or-set buckets i j chain [] lt)
        (elim (Bool-cases (j == i)) [ inl here ↦ rw here agrees | inr there ↦ rw there (all j) ])

  merge_entry-Agrees :
      (dst : OrSet) (src : Entry)
      → IsWritten written dst
      → Agrees written (src ∷ [])
      → (j : ℕ) → Agrees written (get_or (merge_entry granted dst src).1.buckets j [])
  unfolding merge_entry
  merge_entry-Agrees dst src w agrees =
      let lt : src.hash % dst.num_buckets < length dst.buckets =
        omega (arith, w.table.width, w.table.some_bucket) in
      elim (Option-cases (find_by_tag src.hash src.tag (chain_at dst src.hash))) [
        | inl absent ↦ rw absent (
            set-Agrees dst.buckets (src.hash % dst.num_buckets) _ lt w.agrees (
              (take_whole ∙ agrees.0.0, agrees.0.1 ∙ ap length (sym take_whole)),
              w.agrees (src.hash % dst.num_buckets),
            ))
        | inr (existing, present) ↦ elim (Bool-cases (src.removed && not existing.removed)) [
          | inl news ↦
              rw (present, news)
                (set-Agrees dst.buckets (src.hash % dst.num_buckets) _ lt w.agrees (
                  bury_tag-Agrees src.hash src.tag (chain_at dst src.hash)
                    (w.agrees (src.hash % dst.num_buckets))))
          | inr known ↦ rw (present, known) w.agrees
        ]
      ]
    where
      take_whole : take src.size src.bytes ≡ src.bytes
      take_whole = ap (λ k. take k src.bytes) agrees.0.1 ∙ take_all src.bytes

  merge_all-IsWritten :
      (k : ℕ) (dst : OrSet) (news : List Entry)
      → IsWritten written dst
      → Agrees written news
      → IsWritten written (merge_all (λ i. granted) k dst news).1
  unfolding merge_all
  merge_all-IsWritten k dst [] w agrees = w
  merge_all-IsWritten k dst (src ∷ news) w agrees =
      let (d, run, mid) = merge_entry-Joins dst src w.table in
      let d_agrees =
        subst (λ (r : Result × OrSet). (j : ℕ) → Agrees written (get_or r.1.buckets j [])) run
          (merge_entry-Agrees dst src w (agrees.0, tt)) in
      rw run (
        merge_all-IsWritten (k + 1) d news (record { table = mid.table; agrees = d_agrees })
          agrees.1)

  Agrees-append :
      (xs ys : List Entry) → Agrees written xs → Agrees written ys → Agrees written (xs ++ ys)
  Agrees-append [] ys hx hy = hy
  Agrees-append (x ∷ xs) ys hx hy = (hx.0, Agrees-append xs ys hx.1 hy)

  pub chains-Agrees :
      (bs : List (List Entry)) (n : ℕ)
      → ((i : ℕ) → Agrees written (get_or bs i []))
      → Agrees written (chains bs n)
  chains-Agrees bs zero h = tt
  chains-Agrees [] (suc n) h = tt
  chains-Agrees (c ∷ bs) (suc n) h =
      Agrees-append c (chains bs n) (h 0) (chains-Agrees bs n (λ i. h (suc i)))

  -- Merging two sets, with memory, joins what they know of every tag.
  pub merge-status :
      (a b : OrSet)
      → IsWritten written a
      → IsWritten written b
      → (c : OrSet) × (succeeded (merge (λ i. granted) (some a) (some b)) ≡ some c)
        × IsWritten written c
        × (status_of c ≡ join_statuses (status_of a) (status_of b))
  unfolding merge
  merge-status a b wa wb =
      let (c, run, joined) = merge_all-Joins 0 a (entries b) wa.table in
      let c_written =
        subst (λ (r : Result × OrSet). IsWritten written r.1) run
          (merge_all-IsWritten 0 a (entries b) wa
            (chains-Agrees b.buckets b.num_buckets wb.agrees)) in
      (
        c,
        rw run,
        c_written,
        Statuses_ext _ _
            (λ h t. joined.knows h t ∙ ap (max (status_of a h t)) (status-entries b h t wb.table)),
      )

  abbrev pub or_sets : Crdt OrSet Statuses
  or_sets = record {
    lattice = statuses;
    IsState = IsWritten written;
    view = status_of;
    merge = λ a b. succeeded (merge (λ i. granted) (some a) (some b));
    merge-view = merge-status;
  }

  -- Where a tag names one addition only, two sets that know the same of every tag, two empty ones
  -- for instance, and that merge the same well-formed sets with memory, each in its own order and as
  -- often as it likes, have the same members afterwards.
  pub orset_converges :
      (a b : OrSet) (xs ys : List OrSet)
      → IsWritten written a
      → IsWritten written b
      → ((h : ℕ) (t : Uid) → status_of a h t ≡ status_of b h t)
      → AllStates or_sets xs
      → AllStates or_sets ys
      → SameStates or_sets xs ys
      → (c : OrSet) × (d : OrSet) × (deliver or_sets a xs ≡ some c)
        × (deliver or_sets b ys ≡ some d)
        × ((bytes : List ℕ) (size : ℕ)
            → contains (some c) (some bytes) size ≡ contains (some d) (some bytes) size)
  orset_converges a b xs ys wa wb start hx hy same =
      let (c, d, run, run', seen, wc, wd) =
        deliver_converges or_sets a b xs ys wa wb (Statuses_ext _ _ start) hx hy same in
      let at = λ (h : ℕ) (t : Uid). ap (λ (f : Statuses). f h t) seen in
      (
        c,
        d,
        run,
        run',
        λ bytes size.
            Bool_ext _ _ (same_status-contains written c d bytes size wc wd at)
              (same_status-contains written d c bytes size wd wc (λ h t. sym (at h t))),
      )
