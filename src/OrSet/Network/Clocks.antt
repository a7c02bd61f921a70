-- ===== src/OrSet/Network/Clocks.antt =====
-- Which operations of an OR-Set change its node and its time stamp.
use cauchy.Prelude.{
  ℕ, ◌+◌, ◌%◌, ◌<◌, ◌≡◌, refl, sym, ap, ◌∙◌, true, false, ◌&&◌, not, Option, none, some, List, [],
  ◌∷◌, ◌==◌, arith, Bool-cases, inl, inr,
}
use cauchy.Types.{Result, is_ok, ok}
use cauchy.Cells.{u64_mod}
use cauchy.GSet.{Grant, granted, no_data, no_node}
use cauchy.OrSet.{OrSet, Entry, init, add, remove}
use cauchy.OrSet.Merge.{
  find_by_tag, chain_at, merge_found, merge_entry, and_then, merge_all, entries, merge,
}

-- The node and the time stamp.
abbrev pub clock : OrSet → ℕ × ℕ
clock orset = (orset.node_id, orset.timestamp)

abbrev pub clock_of : Option OrSet → ℕ × ℕ
clock_of none = (0, 0)
clock_of (some orset) = clock orset

pub init-clock :
    (block c : OrSet) (capacity i : ℕ)
    → init true true (some block) capacity i ≡ (ok, some c)
    → clock c ≡ (i, 0)
unfolding init
init-clock block c capacity i run = sym (ap (λ (r : Result × Option OrSet). clock_of r.1) run)

pub add-clock :
    (orset c : OrSet) (bytes : List ℕ) (size : ℕ)
    → 0 < size
    → add granted (some orset) (some bytes) size ≡ (ok, some c)
    → clock c ≡ (orset.node_id, (orset.timestamp + 1) % u64_mod)
unfolding add
add-clock orset c bytes size any run =
    let used : (size == 0) ≡ false = ground arith in
    sym (ap (λ (r : Result × Option OrSet). clock_of r.1) (rw used at run))

pub remove-clock :
    (orset c : OrSet) (bytes : List ℕ) (size : ℕ) (res : Result)
    → 0 < size
    → remove (some orset) (some bytes) size ≡ (res, some c)
    → clock c ≡ clock orset
unfolding remove
remove-clock orset c bytes size res any run =
    let used : (size == 0) ≡ false = ground arith in
    sym (ap (λ (r : Result × Option OrSet). clock_of r.1) (rw used at run))

merge_found-clock :
    (grant : Grant) (dst : OrSet) (src : Entry) (existing : Option Entry)
    → clock (merge_found grant dst src existing).1 ≡ clock dst
merge_found-clock granted dst src none = refl
merge_found-clock no_data dst src none = refl
merge_found-clock no_node dst src none = refl
merge_found-clock grant dst src (some existing) =
    elim (Bool-cases (src.removed && not existing.removed)) [
      | inl news ↦ rw news refl
      | inr known ↦ rw known refl
    ]

and_then-clock :
    (r : Result × OrSet) (more : OrSet → Result × OrSet)
    → ((d : OrSet) → clock (more d).1 ≡ clock d)
    → clock (and_then r more).1 ≡ clock r.1
and_then-clock (res, dst) more keeps = elim (Bool-cases (is_ok res)) [
  | inl good ↦ rw good (keeps dst)
  | inr bad ↦ rw bad refl
]

merge_all-clock :
    (memory : ℕ → Grant) (k : ℕ) (dst : OrSet) (news : List Entry)
    → clock (merge_all memory k dst news).1 ≡ clock dst
unfolding merge_all merge_entry
merge_all-clock memory k dst [] = refl
merge_all-clock memory k dst (src ∷ news) =
    and_then-clock (merge_entry (memory k) dst src) (λ d. merge_all memory (k + 1) d news)
      (λ d. merge_all-clock memory (k + 1) d news)
    ∙ merge_found-clock (memory k) dst src (find_by_tag src.hash src.tag (chain_at dst src.hash))

pub merge-clock :
    (memory : ℕ → Grant) (dst src c : OrSet) (res : Result)
    → merge memory (some dst) (some src) ≡ (res, some c)
    → clock c ≡ clock dst
unfolding merge
merge-clock memory dst src c res run =
    sym (ap (λ (r : Result × Option OrSet). clock_of r.1) run)
    ∙ merge_all-clock memory 0 dst (entries src)
