-- ===== src/OrSet.antt =====
-- include/cauchy/crdt/or_set.h and src/crdt/or_set.c: sets whose additions carry tags. A removal
-- turns the entries that it sees into tombstones. A chain is a list, NULL the empty one; a set
-- pointer that may be NULL is an `Option`. What the allocator answers is an argument.
pub mod Merge
pub mod Iter
pub mod Status
pub mod Join
pub mod Content
pub mod Converge
pub mod Replicas
pub mod Local
pub mod AddWins
pub mod Counts
pub mod Network
pub mod Same
pub mod Classes
use cauchy.Prelude.{
  ℕ, ◌+◌, ◌-◌, ◌%◌, Bool, true, false, ◌&&◌, not, Option, none, some, List, [], ◌∷◌, ◌==◌, get_or,
  set, take, replicate, list_eq, if◌then◌else◌,
}
use cauchy.Types.{Uid, uid_create, Result, ok, err_invalid, err_nomem, err_notfound}
use cauchy.Cells.{u64_mod}
use cauchy.GSet.{Grant, granted, no_data, no_node, hash_data}

-- `cauchy_orset_entry_t`, without the pointer to the next entry; `bytes` is `data`
pub record Entry : Type 0 where
  pub bytes : List ℕ
  pub size : ℕ
  pub hash : ℕ
  pub tag : Uid
  pub removed : Bool

-- `cauchy_orset_t`, without the pool
pub record OrSet : Type 0 where
  pub buckets : List (List Entry)
  pub num_buckets : ℕ
  pub entry_count : ℕ
  pub active_count : ℕ
  pub node_id : ℕ
  pub timestamp : ℕ

-- No entries yet.
abbrev pub fresh : List (List Entry) → ℕ → ℕ → OrSet
fresh buckets num_buckets node_id = record {
  buckets = buckets;
  num_buckets = num_buckets;
  entry_count = 0;
  active_count = 0;
  node_id = node_id;
  timestamp = 0;
}

-- `calloc` answers `table`, and `cauchy_pool_create` `pool`. A table that was not allocated, or
-- was freed again, is the empty list.
unfoldable pub init : Bool → Bool → Option OrSet → ℕ → ℕ → Result × Option OrSet
init table pool none initial_capacity node_id = (err_invalid, none)
init false pool (some orset) initial_capacity node_id =
    (err_nomem, some (record orset { buckets = [] }))
init true pool (some orset) initial_capacity node_id =
    let capacity = if initial_capacity == 0 then 16 else initial_capacity in
    if pool
    then (ok, some (fresh (replicate capacity []) capacity node_id))
    else (err_nomem, some (fresh [] capacity node_id))

-- The block is what `malloc` returned.
unfoldable pub create : Bool → Bool → Option OrSet → ℕ → ℕ → Option OrSet
create table pool block initial_capacity node_id =
    made (init table pool block initial_capacity node_id)
  where
    made : Result × Option OrSet → Option OrSet
    made (ok, orset) = orset
    made (_, orset) = none

-- The entry that an addition puts in.
abbrev pub entry_of : OrSet → List ℕ → ℕ → Entry
entry_of orset bytes size = record {
  bytes = take size bytes;
  size = size;
  hash = hash_data bytes size;
  tag = uid_create orset.node_id ((orset.timestamp + 1) % u64_mod);
  removed = false;
}

-- What an addition does with the allocator's answer.
abbrev pub insert : OrSet → List ℕ → ℕ → Grant → Result × Option OrSet
insert orset bytes size no_node = (err_nomem, some orset)
insert orset bytes size no_data = (err_nomem, some orset)
insert orset bytes size granted =
    let idx = hash_data bytes size % orset.num_buckets in
    (
      ok,
      some (record orset {
        buckets = set orset.buckets idx (entry_of orset bytes size ∷ get_or orset.buckets idx []);
        timestamp = (orset.timestamp + 1) % u64_mod;
        entry_count = (orset.entry_count + 1) % u64_mod;
        active_count = (orset.active_count + 1) % u64_mod;
      }),
    )

unfoldable pub add : Grant → Option OrSet → Option (List ℕ) → ℕ → Result × Option OrSet
add grant (some orset) (some bytes) size =
    if size == 0 then (err_invalid, some orset) else insert orset bytes size grant
add grant orset _ size = (err_invalid, orset)

-- The test that the loops of `remove` and `contains` make.
abbrev pub matches : ℕ → List ℕ → ℕ → Entry → Bool
matches h bytes size entry =
    not entry.removed
    && (entry.hash == h
        && (entry.size == size && list_eq (take size entry.bytes) (take size bytes)))

abbrev pub found : ℕ → List ℕ → ℕ → List Entry → Bool
found h bytes size [] = false
found h bytes size (entry ∷ next) =
    let rest = found h bytes size next in if matches h bytes size entry then true else rest

-- The loop of `remove`: every match becomes a tombstone.
abbrev pub bury : ℕ → List ℕ → ℕ → List Entry → List Entry
bury h bytes size [] = []
bury h bytes size (entry ∷ next) =
    (if matches h bytes size entry then record entry { removed = true } else entry)
    ∷ bury h bytes size next

-- `set->active_count--` once for every match, a `usize` that wraps
abbrev pub uncount : ℕ → List ℕ → ℕ → List Entry → ℕ → ℕ
uncount h bytes size [] count = count
uncount h bytes size (entry ∷ next) count =
    uncount h bytes size next
      (if matches h bytes size entry then (count + u64_mod - 1) % u64_mod else count)

unfoldable pub remove : Option OrSet → Option (List ℕ) → ℕ → Result × Option OrSet
remove (some orset) (some bytes) size =
    if size == 0
    then (err_invalid, some orset)
    else (let h = hash_data bytes size in
        let idx = h % orset.num_buckets in
        let chain = get_or orset.buckets idx [] in
        (
          if found h bytes size chain then ok else err_notfound,
          some (record orset {
            buckets = set orset.buckets idx (bury h bytes size chain);
            active_count = uncount h bytes size chain orset.active_count;
          }),
        ))
remove orset _ size = (err_invalid, orset)

unfoldable pub contains : Option OrSet → Option (List ℕ) → ℕ → Bool
contains (some orset) (some bytes) size =
    if size == 0
    then false
    else (let h = hash_data bytes size in
        found h bytes size (get_or orset.buckets (h % orset.num_buckets) []))
contains _ _ size = false

unfoldable pub count : Option OrSet → ℕ
count none = 0
count (some orset) = orset.active_count

unfoldable pub is_empty : Option OrSet → Bool
is_empty none = true
is_empty (some orset) = orset.active_count == 0
