-- ===== src/OrSet/Iter.antt =====
-- The string forms and the iterator of src/crdt/or_set.c. The iterator holds the chain that is left
-- of a bucket; its loops over the rest of a chain and over the buckets are written out.
pub mod Left
pub mod Walk
pub mod Stall
use cauchy.Prelude.{
  ℕ, zero, suc, ◌+◌, ◌-◌, ◌%◌, Bool, true, false, ◌&&◌, ◌||◌, not, Option, none, some, List, [],
  ◌∷◌, ltb, get_or, if◌then◌else◌,
}
use cauchy.Types.{Result, err_invalid}
use cauchy.Bytes.Text.{strlen}
use cauchy.Cells.{u64_mod}
use cauchy.GSet.{Grant}
use cauchy.OrSet.{OrSet, Entry, add, remove, contains}

unfoldable pub add_string : Grant → Option OrSet → Option (List ℕ) → Result × Option OrSet
add_string grant orset none = (err_invalid, orset)
add_string grant orset (some str) = add grant orset (some str) (strlen str + 1)

unfoldable pub remove_string : Option OrSet → Option (List ℕ) → Result × Option OrSet
remove_string orset none = (err_invalid, orset)
remove_string orset (some str) = remove orset (some str) (strlen str + 1)

unfoldable pub contains_string : Option OrSet → Option (List ℕ) → Bool
contains_string orset none = false
contains_string orset (some str) = contains orset (some str) (strlen str + 1)

-- `cauchy_orset_iter_t`; `orset` is `set`. The last two fields are written once and never read.
pub record Iter : Type 0 where
  pub orset : Option OrSet
  pub bucket_idx : ℕ
  pub current : List Entry
  pub last_data : Option (List ℕ)
  pub last_size : ℕ

abbrev pub at_end : List Entry → Bool
at_end [] = true
at_end (entry ∷ next) = false

-- `while (current && current->removed) current = current->next`
abbrev pub skip_removed : List Entry → List Entry
skip_removed [] = []
skip_removed (entry ∷ next) =
    let rest = skip_removed next in if entry.removed then rest else entry ∷ next

-- The bucket `i`, or the chain at hand when there is no such bucket.
abbrev pub bucket_or : OrSet → ℕ → List Entry → List Entry
bucket_or orset i current = if ltb i orset.num_buckets then get_or orset.buckets i [] else current

-- The loop of `iter_init`. Its fuel is the number of buckets, of which each round leaves one behind.
abbrev pub seek : ℕ → OrSet → ℕ → List Entry → ℕ × List Entry
seek zero orset i current = (i, current)
seek (suc fuel) orset i current =
    let live = skip_removed current in
    let rest = seek fuel orset (i + 1) (bucket_or orset (i + 1) live) in
    if ltb i orset.num_buckets then (if at_end live then rest else (i, live)) else (i, current)

unfoldable pub iter_init : Option Iter → Option OrSet → Option Iter
iter_init none orset = none
iter_init (some iter) none =
    some (record { orset = none; bucket_idx = 0; current = []; last_data = none; last_size = 0 })
iter_init (some iter) (some orset) =
    let (i, current) = seek orset.num_buckets orset 0 (get_or orset.buckets 0 []) in
    some (record {
      orset = some orset;
      bucket_idx = i;
      current = current;
      last_data = none;
      last_size = 0;
    })

-- The loop of `iter_next` behind the last entry of a bucket, `while (++bucket_idx < num_buckets)`.
abbrev pub advance : ℕ → OrSet → ℕ → List Entry → ℕ × List Entry
advance zero orset i current = (i, current)
advance (suc fuel) orset i current =
    let live = skip_removed (get_or orset.buckets (i + 1) []) in
    let rest = advance fuel orset (i + 1) live in
    if ltb (i + 1) orset.num_buckets
    then (if at_end live then rest else (i + 1, live))
    else (i + 1, current)

-- Where the iterator stands after the entry in front of `next`.
abbrev pub pass : OrSet → ℕ → List Entry → ℕ × List Entry
pass orset i next =
    let live = skip_removed next in
    if at_end live then advance orset.num_buckets orset i live else (i, live)

-- A call that answered, with `*data` and `*size` where the answer is true, or `none` for one that
-- is still running when the fuel is used up.
abbrev pub Answer : Type 0
Answer = Option (Option (List ℕ × ℕ) × (ℕ × List Entry))

-- The outer loop of `iter_next`. A tombstone at hand is not passed: the loop goes to the next
-- bucket, and where there is none it goes on with the same chain.
abbrev pub next_round : ℕ → OrSet → ℕ → List Entry → Answer
next_round zero orset i current = none
next_round (suc fuel) orset i [] =
    let rest = next_round fuel orset ((i + 1) % u64_mod) (bucket_or orset ((i + 1) % u64_mod) []) in
    if ltb i (orset.num_buckets - 1) then rest else some (none, (i, []))
next_round (suc fuel) orset i (entry ∷ next) =
    let j = (i + 1) % u64_mod in
    let rest = next_round fuel orset j (bucket_or orset j (entry ∷ next)) in
    if not entry.removed then some (some (entry.bytes, entry.size), pass orset i next) else rest

-- The iterator after a call.
abbrev pub placed_at : Iter → Answer → Option (Option (List ℕ × ℕ) × Option Iter)
placed_at iter none = none
placed_at iter (some (item, (i, current))) =
    some (item, some (record iter { bucket_idx = i; current = current }))

abbrev pub next_in : ℕ → Iter → Option OrSet → Option (Option (List ℕ × ℕ) × Option Iter)
next_in fuel iter none = some (none, some iter)
next_in fuel iter (some orset) = placed_at iter (next_round fuel orset iter.bucket_idx iter.current)

-- The result with fuel for as many rounds of the outer loop.
unfoldable pub iter_next : ℕ → Option Iter → Option (Option (List ℕ × ℕ) × Option Iter)
iter_next fuel none = some (none, none)
iter_next fuel (some iter) = next_in fuel iter iter.orset
