-- ===== src/GSet.antt =====
-- include/cauchy/crdt/g_set.h and src/crdt/g_set.c: sets of byte strings that only grow, as a hash
-- table with chains. A chain is a list, NULL the empty one; a set pointer that may be NULL is an
-- `Option`. What the allocator answers is an argument.
pub mod Iter
pub mod Membership
pub mod Union
pub mod Replicas
pub mod Converge
use cauchy.Prelude.{
  ℕ, zero, suc, ◌+◌, ◌*◌, ◌/◌, ◌%◌, Bool, true, false, ◌&&◌, not, Option, none, some, List, [], ◌∷◌,
  ◌++◌, ◌==◌, get_or, set, take, replicate, list_eq, if◌then◌else◌,
}
use cauchy.Types.{Result, is_ok, ok, err_invalid, err_nomem}
use cauchy.Cells.{u64_mod}
use cauchy.Chains.{chains}
use cauchy.Bytes.Text.{strlen}

-- `cauchy_gset_elem_t`, without the pointer to the next element; `bytes` is `data`
pub record Elem : Type 0 where
  pub bytes : List ℕ
  pub size : ℕ
  pub hash : ℕ

-- `cauchy_gset_t`, without the pool
pub record GSet : Type 0 where
  pub buckets : List (List Elem)
  pub num_buckets : ℕ
  pub count : ℕ

-- The exclusive or of the low `bits` bits.
unfoldable pub xor : ℕ → ℕ → ℕ → ℕ
xor zero a b = 0
xor (suc bits) a b = (a % 2 + b % 2) % 2 + 2 * xor bits (a / 2) (b / 2)

abbrev pub hash_step : ℕ → List ℕ → ℕ
hash_step hash [] = hash
hash_step hash (b ∷ bytes) = hash_step (xor 64 hash b * 1099511628211 % u64_mod) bytes

-- `hash_data`: FNV-1a of the first `size` bytes
unfoldable pub hash_data : List ℕ → ℕ → ℕ
hash_data bytes size = hash_step 14695981039346656037 (take size bytes)

-- `calloc` answers `table`, and `cauchy_pool_create` `pool`. A table that was not allocated, or
-- was freed again, is the empty list.
unfoldable pub init : Bool → Bool → Option GSet → ℕ → Result × Option GSet
init table pool none initial_capacity = (err_invalid, none)
init false pool (some set) initial_capacity = (err_nomem, some (record set { buckets = [] }))
init true pool (some set) initial_capacity =
    let capacity = if initial_capacity == 0 then 16 else initial_capacity in
    if pool
    then (ok, some (record { buckets = replicate capacity []; num_buckets = capacity; count = 0 }))
    else (err_nomem, some (record { buckets = []; num_buckets = capacity; count = 0 }))

-- The block is what `malloc` returned.
unfoldable pub create : Bool → Bool → Option GSet → ℕ → Option GSet
create table pool block initial_capacity = made (init table pool block initial_capacity)
  where
    made : Result × Option GSet → Option GSet
    made (ok, set) = set
    made (_, set) = none

-- The test that the loops over a chain make.
abbrev pub matches : ℕ → List ℕ → ℕ → Elem → Bool
matches h bytes size elem =
    elem.hash == h && (elem.size == size && list_eq (take size elem.bytes) (take size bytes))

abbrev pub found : ℕ → List ℕ → ℕ → List Elem → Bool
found h bytes size [] = false
found h bytes size (elem ∷ next) =
    let rest = found h bytes size next in if matches h bytes size elem then true else rest

-- What the allocator answers to an addition: a node and its data, a node only, or neither.
pub data Grant : Type 0 where
  granted no_data no_node : Grant

-- The node of an addition without data goes back to the pool.
unfoldable pub add : Grant → Option GSet → Option (List ℕ) → ℕ → Result × Option GSet
add grant (some gset) (some bytes) size =
    if size == 0
    then (err_invalid, some gset)
    else (let h = hash_data bytes size in
        let idx = h % gset.num_buckets in
        let chain = get_or gset.buckets idx [] in
        if found h bytes size chain then (ok, some gset) else insert grant h idx chain)
  where
    insert : Grant → ℕ → ℕ → List Elem → Result × Option GSet
    insert no_node h idx chain = (err_nomem, some gset)
    insert no_data h idx chain = (err_nomem, some gset)
    insert granted h idx chain = (
      ok,
      some (record gset {
        buckets =
            set gset.buckets idx
              (record { bytes = take size bytes; size = size; hash = h } ∷ chain);
        count = (gset.count + 1) % u64_mod;
      }),
    )
add grant gset _ size = (err_invalid, gset)

unfoldable pub contains : Option GSet → Option (List ℕ) → ℕ → Bool
contains (some gset) (some bytes) size =
    if size == 0
    then false
    else (let h = hash_data bytes size in
        found h bytes size (get_or gset.buckets (h % gset.num_buckets) []))
contains _ _ size = false

unfoldable pub count : Option GSet → ℕ
count none = 0
count (some gset) = gset.count

unfoldable pub is_empty : Option GSet → Bool
is_empty none = true
is_empty (some gset) = gset.count == 0

-- The elements in the order in which the loops over buckets and chains meet them.
abbrev pub elements : GSet → List Elem
elements gset = chains gset.buckets gset.num_buckets

-- `if (res != CAUCHY_OK) return res;`
abbrev pub and_then :
    Result × Option GSet → (Option GSet → Result × Option GSet) → Result × Option GSet
and_then (res, gset) rest = if is_ok res then rest gset else (res, gset)

-- The loop of `merge`; the allocator's answer to the `k`-th addition is `memory k`.
unfoldable pub add_all : (ℕ → Grant) → ℕ → Option GSet → List Elem → Result × Option GSet
add_all memory k dst [] = (ok, dst)
add_all memory k dst (elem ∷ elems) =
    and_then (add (memory k) dst (some elem.bytes) elem.size)
      (λ dst'. add_all memory (k + 1) dst' elems)

unfoldable pub merge : (ℕ → Grant) → Option GSet → Option GSet → Result × Option GSet
merge memory (some dst) (some src) = add_all memory 0 (some dst) (elements src)
merge memory dst _ = (err_invalid, dst)

abbrev pub all_in : Option GSet → List Elem → Bool
all_in b [] = true
all_in b (elem ∷ elems) =
    let rest = all_in b elems in
    if not (contains b (some elem.bytes) elem.size) then false else rest

unfoldable pub subset : Option GSet → Option GSet → Bool
subset (some a) (some b) = all_in (some b) (elements a)
subset _ _ = false

unfoldable pub equals : Option GSet → Option GSet → Bool
equals none none = true
equals none (some b) = false
equals (some a) none = false
equals (some a) (some b) =
    if not (a.count == b.count) then false else subset (some a) (some b) && subset (some b) (some a)

unfoldable pub add_string : Grant → Option GSet → Option (List ℕ) → Result × Option GSet
add_string grant gset none = (err_invalid, gset)
add_string grant gset (some str) = add grant gset (some str) (strlen str + 1)

unfoldable pub contains_string : Option GSet → Option (List ℕ) → Bool
contains_string gset none = false
contains_string gset (some str) = contains gset (some str) (strlen str + 1)
