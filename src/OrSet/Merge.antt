-- ===== src/OrSet/Merge.antt =====
-- `cauchy_orset_merge` and `cauchy_orset_equals`. An entry of the source is looked for by hash and
-- tag: where it is found, a tombstone is taken over, and otherwise the entry is copied.
use cauchy.Prelude.{
  ℕ, ◌+◌, ◌-◌, ◌%◌, Bool, true, false, ◌&&◌, not, Option, none, some, List, [], ◌∷◌, ◌==◌, get_or,
  set, take, if◌then◌else◌,
}
use cauchy.Types.{Uid, uid_equals, Result, is_ok, ok, err_invalid, err_nomem}
use cauchy.Cells.{u64_mod}
use cauchy.Chains.{chains}
use cauchy.GSet.{Grant, granted, no_data, no_node}
use cauchy.OrSet.{OrSet, Entry, contains}

-- The test of `find_entry_by_tag`.
abbrev pub tagged : ℕ → Uid → Entry → Bool
tagged hash tag entry = entry.hash == hash && uid_equals entry.tag tag

-- `find_entry_by_tag`, in the chain of the hash
unfoldable pub find_by_tag : ℕ → Uid → List Entry → Option Entry
find_by_tag hash tag [] = none
find_by_tag hash tag (entry ∷ next) =
    let rest = find_by_tag hash tag next in if tagged hash tag entry then some entry else rest

-- `existing->removed = true` for the entry that `find_entry_by_tag` returns
unfoldable pub bury_tag : ℕ → Uid → List Entry → List Entry
bury_tag hash tag [] = []
bury_tag hash tag (entry ∷ next) =
    let rest = bury_tag hash tag next in
    if tagged hash tag entry then record entry { removed = true } ∷ next else entry ∷ rest

abbrev pub chain_at : OrSet → ℕ → List Entry
chain_at orset hash = get_or orset.buckets (hash % orset.num_buckets) []

-- The branch for a tag that the destination has.
abbrev pub take_over : OrSet → Entry → Entry → Result × OrSet
take_over dst src existing =
    if src.removed && not existing.removed
    then (
      ok,
      record dst {
        buckets =
            set dst.buckets (src.hash % dst.num_buckets)
              (bury_tag src.hash src.tag (chain_at dst src.hash));
        active_count = (dst.active_count + u64_mod - 1) % u64_mod;
      },
    )
    else (ok, dst)

-- The branch for a tag that it has not.
abbrev pub copy_entry : Grant → OrSet → Entry → Result × OrSet
copy_entry no_node dst src = (err_nomem, dst)
copy_entry no_data dst src = (err_nomem, dst)
copy_entry granted dst src = (
  ok,
  record dst {
    buckets =
        set dst.buckets (src.hash % dst.num_buckets)
          (record src { bytes = take src.size src.bytes } ∷ chain_at dst src.hash);
    entry_count = (dst.entry_count + 1) % u64_mod;
    active_count = if not src.removed then (dst.active_count + 1) % u64_mod else dst.active_count;
  },
)

abbrev pub merge_found : Grant → OrSet → Entry → Option Entry → Result × OrSet
merge_found grant dst src none = copy_entry grant dst src
merge_found grant dst src (some existing) = take_over dst src existing

-- One round of the loop over the source.
unfoldable pub merge_entry : Grant → OrSet → Entry → Result × OrSet
merge_entry grant dst src =
    merge_found grant dst src (find_by_tag src.hash src.tag (chain_at dst src.hash))

-- `return CAUCHY_ERR_NOMEM` out of the loop
abbrev pub and_then : Result × OrSet → (OrSet → Result × OrSet) → Result × OrSet
and_then (res, dst) rest = if is_ok res then rest dst else (res, dst)

-- The loop; the allocator's answer in round `k` is `memory k`.
unfoldable pub merge_all : (ℕ → Grant) → ℕ → OrSet → List Entry → Result × OrSet
merge_all memory k dst [] = (ok, dst)
merge_all memory k dst (src ∷ entries) =
    and_then (merge_entry (memory k) dst src) (λ dst'. merge_all memory (k + 1) dst' entries)

abbrev pub entries : OrSet → List Entry
entries orset = chains orset.buckets orset.num_buckets

-- A destination that is not NULL keeps its address.
abbrev pub kept : Result × OrSet → Result × Option OrSet
kept (res, dst) = (res, some dst)

unfoldable pub merge : (ℕ → Grant) → Option OrSet → Option OrSet → Result × Option OrSet
merge memory (some dst) (some src) = kept (merge_all memory 0 dst (entries src))
merge memory dst _ = (err_invalid, dst)

-- The loop of `equals`: every active entry of `a` is a member of `b`.
abbrev pub all_in : Option OrSet → List Entry → Bool
all_in b [] = true
all_in b (entry ∷ next) =
    let rest = all_in b next in
    if not entry.removed && not (contains b (some entry.bytes) entry.size) then false else rest

unfoldable pub equals : Option OrSet → Option OrSet → Bool
equals none none = true
equals none (some b) = false
equals (some a) none = false
equals (some a) (some b) =
    if not (a.active_count == b.active_count) then false else all_in (some b) (entries a)
