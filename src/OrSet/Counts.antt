-- ===== src/OrSet/Counts.antt =====
-- The two counters of an OR-Set against its table.
pub mod Updates
pub mod Live
use mathlib.Core.Option.{some-injective}
use cauchy.Prelude.{
  ℕ, zero, suc, ◌+◌, ◌-◌, ◌%◌, ◌≤◌, ◌<◌, ◌≡◌, refl, sym, ap, ◌∙◌, Bool, true, false, ◌&&◌, not,
  Option, none, some, List, [], ◌∷◌, ◌++◌, ◌==◌, length, get_or, take, replicate, length-set,
  length-append, if◌then◌else◌, arith, Bool-cases, Option-cases, inl, inr, and_true,
}
use cauchy.Types.{Uid, Result, is_ok, ok, err_nomem}
use cauchy.Cells.{u64_mod}
use cauchy.Chains.{chains, chains-set}
use cauchy.GSet.{Grant, granted, no_data, no_node, hash_data}
use cauchy.OrSet.{
  OrSet, Entry, fresh, entry_of, matches, found, bury, uncount, init, add, remove, contains, count,
  is_empty,
}
use cauchy.OrSet.Merge.{
  tagged, find_by_tag, bury_tag, chain_at, copy_entry, and_then, merge_entry, merge_all, entries,
  merge,
}
use cauchy.OrSet.Join.{with_chain}
use cauchy.OrSet.Content.{matches_sound}

abbrev pub active : List Entry → ℕ
active [] = 0
active (e ∷ next) = (if e.removed then 0 else 1) + active next

-- A table whose counters are the numbers of its entries and of its active ones, and fit 64 bits.
pub record IsCounted (orset : OrSet) : Type 0 where
  pub width : length orset.buckets ≡ orset.num_buckets
  pub some_bucket : 0 < orset.num_buckets
  pub total : orset.entry_count ≡ length (entries orset)
  pub live : orset.active_count ≡ active (entries orset)
  pub fits : orset.entry_count < u64_mod

active-append : (xs ys : List Entry) → active (xs ++ ys) ≡ active xs + active ys
active-append [] ys = omega arith
active-append (x ∷ xs) ys = omega (arith, active-append xs ys)

pub active-le-length : (xs : List Entry) → active xs ≤ length xs
active-le-length [] = omega arith
active-le-length (x ∷ xs) = ground (arith, active-le-length xs)

module _ (orset : OrSet) (h : ℕ) (chain : List Entry) (total live ts : ℕ)
    (width : length orset.buckets ≡ orset.num_buckets) (some_bucket : 0 < orset.num_buckets) where
  -- Both counts over the whole table, after a write of one chain.
  counts-with_chain :
      (length (entries (with_chain orset h chain total live ts)) + length (chain_at orset h)
        ≡ length (entries orset) + length chain)
      × (active (entries (with_chain orset h chain total live ts)) + active (chain_at orset h)
          ≡ active (entries orset) + active chain)
  counts-with_chain =
      let lt : h % orset.num_buckets < orset.num_buckets = omega arith in
      (
        chains-set (length {A = Entry}) refl (length-append {A = Entry}) orset.buckets
            orset.num_buckets (h % orset.num_buckets) chain lt (sym width),
        chains-set active refl active-append orset.buckets orset.num_buckets (h % orset.num_buckets)
            chain lt (sym width),
      )

length-bury_tag : (h : ℕ) (t : Uid) (xs : List Entry) → length (bury_tag h t xs) ≡ length xs
unfolding bury_tag
length-bury_tag h t [] = refl
length-bury_tag h t (x ∷ xs) = elim (Bool-cases (tagged h t x)) [
  | inl hit ↦ rw hit
  | inr miss ↦ rw miss (ap suc (length-bury_tag h t xs))
]

active-bury_tag :
    (h : ℕ) (t : Uid) (xs : List Entry) (e : Entry)
    → find_by_tag h t xs ≡ some e
    → e.removed ≡ false
    → active (bury_tag h t xs) + 1 ≡ active xs
unfolding bury_tag find_by_tag
active-bury_tag h t [] e run live = absurd (ground arith)
active-bury_tag h t (x ∷ xs) e run live = elim (Bool-cases (tagged h t x)) [
  | inl hit ↦
      let head : find_by_tag h t (x ∷ xs) ≡ some x = rw hit in
      let x_live = ap (λ (y : Entry). y.removed) (some-injective x e (sym head ∙ run)) ∙ live in
      rw (hit, x_live) (omega arith)
  | inr miss ↦ rw miss (omega (arith, active-bury_tag h t xs e (ground arith) live))
]

-- The loop of `remove` takes one off for each entry that it buries.
pub uncount-bury :
    (h : ℕ) (bytes : List ℕ) (size : ℕ) (xs : List Entry) (n : ℕ)
    → active xs ≤ n
    → n < u64_mod
    → uncount h bytes size xs n + active xs ≡ n + active (bury h bytes size xs)
uncount-bury h bytes size [] n le lt = refl
uncount-bury h bytes size (x ∷ xs) n le lt = elim (Bool-cases (matches h bytes size x)) [
  | inl hit ↦
      let (live, _, _, _) = matches_sound h bytes size x hit in
      let some_active : active xs + 1 ≤ n = ground arith in
      let less : (n + u64_mod - 1) % u64_mod ≡ n - 1 = omega arith in
      let rest = uncount-bury h bytes size xs (n - 1) (omega arith) (omega arith) in
      rw (hit, less, live) (omega (arith, rest))
  | inr miss ↦ rw miss (ground (arith, uncount-bury h bytes size xs n (ground arith) lt))
]

pub length-bury :
    (h : ℕ) (bytes : List ℕ) (size : ℕ) (xs : List Entry)
    → length (bury h bytes size xs) ≡ length xs
length-bury h bytes size [] = refl
length-bury h bytes size (x ∷ xs) = ap suc (length-bury h bytes size xs)

pub chain-le-entries :
    (bs : List (List Entry)) (n i : ℕ)
    → i < n
    → (active (get_or bs i []) ≤ active (chains bs n))
      × (length (get_or bs i []) ≤ length (chains bs n))
chain-le-entries bs zero i lt = absurd (omega arith)
chain-le-entries [] (suc n) i lt = (omega arith, omega arith)
chain-le-entries (c ∷ bs) (suc n) zero lt =
    (omega (arith, active-append c (chains bs n)), omega (arith, length-append c (chains bs n)))
chain-le-entries (c ∷ bs) (suc n) (suc i) lt =
    let (live, all) = chain-le-entries bs n i (omega arith) in
    (
      omega (arith, live, active-append c (chains bs n)),
      omega (arith, all, length-append c (chains bs n)),
    )

-- A write of one chain that keeps count.
pub with_chain-IsCounted :
    (orset : OrSet) (h : ℕ) (chain : List Entry) (total live ts : ℕ)
    → IsCounted orset
    → total + length (chain_at orset h) ≡ orset.entry_count + length chain
    → live + active (chain_at orset h) ≡ orset.active_count + active chain
    → total < u64_mod
    → IsCounted (with_chain orset h chain total live ts)
with_chain-IsCounted orset h chain total live ts c all some_live small =
    let (lengths, actives) = counts-with_chain orset h chain total live ts c.width c.some_bucket in
    record {
      width = length-set orset.buckets (h % orset.num_buckets) chain ∙ c.width;
      some_bucket = c.some_bucket;
      total = omega (arith, lengths, all, c.total);
      live = omega (arith, actives, some_live, c.live);
      fits = small;
    }

copy_entry-IsCounted :
    (grant : Grant) (dst : OrSet) (src : Entry)
    → IsCounted dst
    → dst.entry_count + 1 < u64_mod
    → IsCounted (copy_entry grant dst src).1
      × ((copy_entry grant dst src).1.entry_count ≤ dst.entry_count + 1)
copy_entry-IsCounted no_node dst src c room = (c, omega arith)
copy_entry-IsCounted no_data dst src c room = (c, omega arith)
copy_entry-IsCounted granted dst src c room = (
  with_chain-IsCounted dst src.hash
      (record src { bytes = take src.size src.bytes } ∷ chain_at dst src.hash)
      ((dst.entry_count + 1) % u64_mod)
      (if not src.removed then (dst.active_count + 1) % u64_mod else dst.active_count) dst.timestamp
      c (omega arith) (ground (arith, c.live, c.total, active-le-length (entries dst)))
      (omega arith),
  omega arith,
)

-- One round of the loop of `merge`, with or without memory.
merge_entry-IsCounted :
    (grant : Grant) (dst : OrSet) (src : Entry)
    → IsCounted dst
    → dst.entry_count + 1 < u64_mod
    → IsCounted (merge_entry grant dst src).1
      × ((merge_entry grant dst src).1.entry_count ≤ dst.entry_count + 1)
unfolding merge_entry
merge_entry-IsCounted grant dst src c room =
    let chain = chain_at dst src.hash in
    elim (Option-cases (find_by_tag src.hash src.tag chain)) [
      | inl absent ↦ rw absent (copy_entry-IsCounted grant dst src c room)
      | inr (existing, present) ↦ elim (Bool-cases (src.removed && not existing.removed)) [
        | inl news ↦
            let one_off = active-bury_tag src.hash src.tag chain existing present (ground arith) in
            let (here, _) =
              chain-le-entries dst.buckets dst.num_buckets (src.hash % dst.num_buckets)
                (omega (arith, c.some_bucket)) in
            rw (present, news)
              (
                with_chain-IsCounted dst src.hash (bury_tag src.hash src.tag chain) dst.entry_count
                    ((dst.active_count + u64_mod - 1) % u64_mod) dst.timestamp c
                    (omega (arith, length-bury_tag src.hash src.tag chain))
                    (omega (
                      arith,
                      one_off,
                      here,
                      c.live,
                      c.total,
                      c.fits,
                      active-le-length (entries dst),
                    ))
                    c.fits,
                omega arith,
              )
        | inr known ↦ rw (present, known) (c, omega arith)
      ]
    ]

pub merge_all-IsCounted :
    (memory : ℕ → Grant) (k : ℕ) (dst : OrSet) (news : List Entry)
    → IsCounted dst
    → dst.entry_count + length news < u64_mod
    → IsCounted (merge_all memory k dst news).1
unfolding merge_all
merge_all-IsCounted memory k dst [] c room = c
merge_all-IsCounted memory k dst (src ∷ news) c room =
    let (mid, more) = merge_entry-IsCounted (memory k) dst src c (omega arith) in
    elim (Bool-cases (is_ok (merge_entry (memory k) dst src).0)) [
      | inl done ↦ rw done (
          merge_all-IsCounted memory (k + 1) (merge_entry (memory k) dst src).1 news mid
            (omega (arith, more)))
      | inr failed ↦ rw failed mid
    ]
