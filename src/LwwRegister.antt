-- ===== src/LwwRegister.antt =====
-- include/cauchy/crdt/lww_register.h and src/crdt/lww_register.c: a register in which the write with
-- the latest stamp wins, time stamp first and then node. A pointer that may be NULL is an `Option`.
pub mod Merge
pub mod Write
pub mod Accessors
pub mod Wire
use cauchy.Prelude.{
  ℕ, ◌+◌, ◌≤◌, ◌<◌, ◌≡◌, Bool, true, false, ◌&&◌, ◌||◌, not, Option, none, some, List, ltb, ◌==◌,
  length, take, replicate, write, list_eq, if◌then◌else◌,
}
use cauchy.Types.{Result, ok, err_invalid, err_full}
use cauchy.Cells.{u64_mod}

-- `CAUCHY_LWW_MAX_VALUE_SIZE`
abbrev pub max_value_size : ℕ
max_value_size = 256

-- `cauchy_lww_register_t`
pub record LwwRegister : Type 0 where
  pub value : List ℕ
  pub value_size : ℕ
  pub timestamp : ℕ
  pub node_id : ℕ

pub record IsValid (reg : LwwRegister) : Type 0 where
  pub width : length reg.value ≡ max_value_size
  pub used : reg.value_size ≤ max_value_size
  pub timestamp_fits : reg.timestamp < u64_mod
  pub node_fits : reg.node_id < u64_mod

abbrev pub IsValidPtr : Option LwwRegister → Type 0
IsValidPtr none = Unit
IsValidPtr (some reg) = IsValid reg

-- The bytes that count.
abbrev pub content : LwwRegister → List ℕ
content reg = take reg.value_size reg.value

-- The stamp (`ts`, `node`) is later than that of the register.
abbrev pub later : ℕ → ℕ → LwwRegister → Bool
later ts node reg = ltb reg.timestamp ts || (ts == reg.timestamp && ltb reg.node_id node)

unfoldable pub init : Option LwwRegister → Option LwwRegister
init none = none
init (some reg) =
    some (record { value = replicate max_value_size 0; value_size = 0; timestamp = 0; node_id = 0 })

-- The argument is what `cauchy_aligned_alloc` returned, with whatever the block held.
unfoldable pub create : Option LwwRegister → Option LwwRegister
unfolding init
create block = init block

-- `if (value && value_size > 0) memcpy(reg->value, value, value_size)`
abbrev pub store : List ℕ → Option (List ℕ) → ℕ → List ℕ
store old none size = old
store old (some bytes) size = if ltb 0 size then write old 0 (take size bytes) else old

unfoldable pub set : Option LwwRegister → Option (List ℕ) → ℕ → ℕ → ℕ → Result × Option LwwRegister
set none value size timestamp node_id = (err_invalid, none)
set (some reg) value size timestamp node_id =
    if ltb max_value_size size
    then (err_full, some reg)
    else if later timestamp node_id reg
    then (
      ok,
      some (record {
        value = store reg.value value size;
        value_size = size;
        timestamp = timestamp;
        node_id = node_id;
      }),
    )
    else (ok, some reg)

-- The pointer returned, as the array behind it, and `*out_size`.
unfoldable pub get : Option LwwRegister → Option (List ℕ) × ℕ
get none = (none, 0)
get (some reg) = if reg.value_size == 0 then (none, 0) else (some reg.value, reg.value_size)

unfoldable pub timestamp : Option LwwRegister → ℕ
timestamp none = 0
timestamp (some reg) = reg.timestamp

unfoldable pub has_value : Option LwwRegister → Bool
has_value none = false
has_value (some reg) = ltb 0 reg.value_size

unfoldable pub copy : Option LwwRegister → Option LwwRegister → Option LwwRegister
copy (some dst) (some src) = some src
copy dst _ = dst

unfoldable pub merge : Option LwwRegister → Option LwwRegister → Option LwwRegister
unfolding copy
merge (some dst) (some src) =
    if later src.timestamp src.node_id dst then copy (some dst) (some src) else some dst
merge dst _ = dst

unfoldable pub equals : Option LwwRegister → Option LwwRegister → Bool
equals none none = true
equals none (some b) = false
equals (some a) none = false
equals (some a) (some b) =
    if not (a.timestamp == b.timestamp)
    then false
    else if not (a.node_id == b.node_id)
    then false
    else if not (a.value_size == b.value_size)
    then false
    else list_eq (take a.value_size a.value) (take a.value_size b.value)

unfoldable pub clone : Option LwwRegister → Option LwwRegister → Option LwwRegister
unfolding create copy
clone block none = none
clone block (some reg) = copy (create block) (some reg)
