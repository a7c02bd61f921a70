-- ===== src/GCounter.antt =====
-- include/cauchy/crdt/g_counter.h and src/crdt/g_counter.c: counters that only grow. A pointer
-- that may be NULL is an `Option`; what is written through a pointer is returned.
pub mod Merge
pub mod Value
pub mod Wire
pub mod Network
use cauchy.Prelude.{
  ℕ, ◌+◌, ◌%◌, max, Bool, true, false, ◌&&◌, not, Option, none, some, List, ltb, leb, ◌==◌, set,
  replicate, loop, all_below, if◌then◌else◌,
}
use cauchy.Types.{Causality}
use cauchy.Cells.{max_nodes, u64_mod, at, sum_cells, causality, IsCells}

-- `cauchy_gcounter_t`, without its padding
pub record GCounter : Type 0 where
  pub counts : List ℕ
  pub num_nodes : ℕ

abbrev pub IsValid : GCounter → Type 0
IsValid gc = IsCells gc.counts gc.num_nodes

abbrev pub IsValidPtr : Option GCounter → Type 0
IsValidPtr none = Unit
IsValidPtr (some gc) = IsValid gc

unfoldable pub init : Option GCounter → ℕ → Option GCounter
init none num_nodes = none
init (some gc) num_nodes = some (record {
  counts = replicate max_nodes 0;
  num_nodes = if leb num_nodes max_nodes then num_nodes else max_nodes;
})

-- The argument is what `cauchy_aligned_alloc` returned, with whatever the block held.
unfoldable pub create : Option GCounter → ℕ → Option GCounter
unfolding init
create block num_nodes = init block num_nodes

unfoldable pub increment : Option GCounter → ℕ → Option GCounter
increment none node_id = none
increment (some gc) node_id =
    if leb gc.num_nodes node_id
    then some gc
    else some (record gc { counts = set gc.counts node_id ((at gc.counts node_id + 1) % u64_mod) })

unfoldable pub add : Option GCounter → ℕ → ℕ → Option GCounter
add none node_id delta = none
add (some gc) node_id delta =
    if leb gc.num_nodes node_id
    then some gc
    else some
        (record gc { counts = set gc.counts node_id ((at gc.counts node_id + delta) % u64_mod) })

unfoldable pub value : Option GCounter → ℕ
value none = 0
value (some gc) = sum_cells gc.num_nodes gc.counts

unfoldable pub get : Option GCounter → ℕ → ℕ
get none node_id = 0
get (some gc) node_id = if leb gc.num_nodes node_id then 0 else at gc.counts node_id

-- One round of the loop of `merge`; `m` is `src->num_nodes`.
abbrev pub raise : List ℕ → ℕ → ℕ → List ℕ → List ℕ
raise src m i dst = if ltb i m && ltb (at dst i) (at src i) then set dst i (at src i) else dst

unfoldable pub merge : Option GCounter → Option GCounter → Option GCounter
merge (some dst) (some src) = some (record {
  counts = loop (max dst.num_nodes src.num_nodes) (raise src.counts src.num_nodes) dst.counts;
  num_nodes = if ltb dst.num_nodes src.num_nodes then src.num_nodes else dst.num_nodes;
})
merge dst _ = dst

-- Two pointers of which one is NULL are equal if both are.
unfoldable pub equals : Option GCounter → Option GCounter → Bool
equals none none = true
equals none (some b) = false
equals (some a) none = false
equals (some a) (some b) =
    if not (a.num_nodes == b.num_nodes)
    then false
    else all_below a.num_nodes (λ i. at a.counts i == at b.counts i)

unfoldable pub compare : Option GCounter → Option GCounter → Causality
compare (some a) (some b) = causality a.counts a.num_nodes b.counts b.num_nodes
compare _ _ = Causality.concurrent

unfoldable pub copy : Option GCounter → Option GCounter → Option GCounter
copy (some dst) (some src) = some src
copy dst _ = dst

unfoldable pub clone : Option GCounter → Option GCounter → Option GCounter
unfolding create copy
clone block none = none
clone block (some gc) = copy (create block gc.num_nodes) (some gc)
