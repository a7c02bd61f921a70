-- ===== src/Vclock.antt =====
-- include/cauchy/vclock.h and src/core/vclock.c: vector clocks. A pointer that may be NULL is an
-- `Option`; a function that writes through a pointer returns what the pointer then holds.
pub mod Merge
pub mod Compare
pub mod Updates
pub mod Wire
use cauchy.Prelude.{
  ℕ, ◌+◌, ◌*◌, ◌%◌, ◌≤◌, ◌<◌, ◌≡◌, min as min_ℕ, max, Bool, true, false, ◌&&◌, ◌||◌, not, Option,
  none, some, List, ltb, leb, ◌==◌, set as set_cell, replicate, loop, all_below, if◌then◌else◌,
}
use cauchy.Types.{Causality, same_causality}
use cauchy.Cells.{max_nodes, u64_mod, at, cell, sum_cells, causality, IsCells}

-- `cauchy_vclock_t`, without its padding
pub record Vclock : Type 0 where
  pub entries : List ℕ
  pub num_nodes : ℕ

abbrev pub IsValid : Vclock → Type 0
IsValid vc = IsCells vc.entries vc.num_nodes

unfoldable pub init : Option Vclock → ℕ → Option Vclock
init none num_nodes = none
init (some vc) num_nodes = some (record {
  entries = replicate max_nodes 0;
  num_nodes = if leb num_nodes max_nodes then num_nodes else max_nodes;
})

-- The argument is what `cauchy_aligned_alloc` returned, with whatever the block held.
unfoldable pub create : Option Vclock → ℕ → Option Vclock
create block num_nodes = init block num_nodes

unfoldable pub copy : Option Vclock → Option Vclock → Option Vclock
copy (some dst) (some src) = some src
copy dst _ = dst

unfoldable pub clone : Option Vclock → Option Vclock → Option Vclock
unfolding create init copy
clone block none = none
clone block (some vc) = copy (create block vc.num_nodes) (some vc)

-- The count wraps at 2 ^ 64.
unfoldable pub increment : Option Vclock → ℕ → Option Vclock
increment none node_id = none
increment (some vc) node_id =
    if leb vc.num_nodes node_id
    then some vc
    else some (record vc {
      entries = set_cell vc.entries node_id ((at vc.entries node_id + 1) % u64_mod);
    })

unfoldable pub get : Option Vclock → ℕ → ℕ
get none node_id = 0
get (some vc) node_id = if leb vc.num_nodes node_id then 0 else at vc.entries node_id

unfoldable pub set : Option Vclock → ℕ → ℕ → Option Vclock
set none node_id value = none
set (some vc) node_id value =
    if leb vc.num_nodes node_id
    then some vc
    else some (record vc { entries = set_cell vc.entries node_id value })

-- one round of the loop of `merge`
abbrev pub raise : List ℕ → ℕ → List ℕ → List ℕ
raise src i dst = if ltb (at dst i) (at src i) then set_cell dst i (at src i) else dst

unfoldable pub merge : Option Vclock → Option Vclock → Option Vclock
merge (some dst) (some src) = some (record {
  entries = loop (max dst.num_nodes src.num_nodes) (raise src.entries) dst.entries;
  num_nodes = if ltb dst.num_nodes src.num_nodes then src.num_nodes else dst.num_nodes;
})
merge dst _ = dst

unfoldable pub compare : Option Vclock → Option Vclock → Causality
compare (some a) (some b) = causality a.entries a.num_nodes b.entries b.num_nodes
compare _ _ = Causality.concurrent

unfoldable pub happens_before : Option Vclock → Option Vclock → Bool
happens_before a b = same_causality (compare a b) Causality.happens_before

unfoldable pub concurrent : Option Vclock → Option Vclock → Bool
concurrent a b = same_causality (compare a b) Causality.concurrent

unfoldable pub equals : Option Vclock → Option Vclock → Bool
equals a b = same_causality (compare a b) Causality.equal

unfoldable pub is_empty : Option Vclock → Bool
is_empty none = true
is_empty (some vc) = all_below vc.num_nodes (λ i. at vc.entries i == 0)

unfoldable pub sum : Option Vclock → ℕ
sum none = 0
sum (some vc) = sum_cells vc.num_nodes vc.entries

-- one round of the loop of `min`
abbrev pub lower_cell : List ℕ → ℕ → List ℕ → List ℕ
lower_cell src i dst = if ltb (at src i) (at dst i) then set_cell dst i (at src i) else dst

-- Only the cells that are active in both clocks are compared.
unfoldable pub min : Option Vclock → Option Vclock → Option Vclock
min (some dst) (some src) = some (record dst {
  entries = loop (min_ℕ dst.num_nodes src.num_nodes) (lower_cell src.entries) dst.entries;
})
min dst _ = dst
