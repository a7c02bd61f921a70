-- ===== src/Atomic.antt =====
-- include/cauchy/atomic.h, for one access at a time: the value that is read, and the one that is
-- left in memory. The orderings that the accesses ask for do not show in a single access.
pub mod Wide
use Prim.Native.Nat.{bit_and, bit_or}
use cauchy.Prelude.{ℕ, ◌-◌, ◌+◌, ◌%◌, ◌^◌, Bool, true, false, ◌==◌, if◌then◌else◌}
use cauchy.Cells.{u64_mod}

-- `cauchy_atomic_load_u32`, `_u64` and `_ptr`
abbrev pub load : ℕ → ℕ
load word = word

-- `cauchy_atomic_store_u32`, `_u64` and `_ptr`: what is left in memory
abbrev pub store : ℕ → ℕ → ℕ
store word val = val

-- A compare-and-swap: its answer, what is left in memory, and what is left in `*expected`.
pub record Swap : Type 0 where
  pub won : Bool
  pub word : ℕ
  pub expected : ℕ

-- `cauchy_atomic_cas_u32`, `_u64` and `_ptr`
abbrev pub cas : ℕ → ℕ → ℕ → Swap
cas word expected desired =
    if word == expected
    then record { won = true; word = desired; expected = expected }
    else record { won = false; word = word; expected = word }

-- `cauchy_atomic_fetch_add_u64`: what is left in memory
abbrev pub fetch_add_u64 : ℕ → ℕ → ℕ
fetch_add_u64 word val = (word + val) % u64_mod

abbrev pub u32_mod : ℕ
u32_mod = 2 ^ 32

-- `cauchy_atomic_fetch_add_u32`: what is left in memory
abbrev pub fetch_add_u32 : ℕ → ℕ → ℕ
fetch_add_u32 word val = (word + val) % u32_mod

-- An access that reads a value and changes it: what it read, and what is left in memory.
pub record Change : Type 0 where
  pub old : ℕ
  pub left : ℕ

-- `cauchy_atomic_fetch_sub_u64`
abbrev pub fetch_sub_u64 : ℕ → ℕ → Change
fetch_sub_u64 word val = record { old = word; left = (word + u64_mod - val) % u64_mod }

-- `cauchy_atomic_fetch_or_u64`
abbrev pub fetch_or_u64 : ℕ → ℕ → Change
fetch_or_u64 word val = record { old = word; left = bit_or word val }

-- `cauchy_atomic_fetch_and_u64`
abbrev pub fetch_and_u64 : ℕ → ℕ → Change
fetch_and_u64 word val = record { old = word; left = bit_and word val }

-- `cauchy_atomic_exchange_u64` and `_ptr`
abbrev pub exchange : ℕ → ℕ → Change
exchange word val = record { old = word; left = val }

-- `cauchy_atomic_cas_weak_u64`, which may fail although the words are equal.
abbrev pub cas_weak_u64 : Bool → ℕ → ℕ → ℕ → Swap
cas_weak_u64 spurious word expected desired =
    if spurious
    then record { won = false; word = word; expected = word }
    else cas word expected desired
