-- ===== src/Pool/Aligned.antt =====
-- Aligned allocation of src/core/memory.c. `cauchy_aligned_alloc` is compiled in one of three ways;
-- the third puts the address of `malloc`'s block in the word in front of the one it hands out. A
-- word of memory is read and written as a whole.
use mathlib.Core.Option
use cauchy.Prelude.{
  ℕ, zero, suc, ◌+◌, ◌-◌, ◌*◌, ◌^◌, ◌%◌, ◌≤◌, ◌<◌, ◌≡◌, ◌==◌, if◌then◌else◌, arith, Option, none,
  some, refl, ap, ◌∙◌, ==_refl, false,
}
use cauchy.Cells.{u64_mod}
use cauchy.Pool.{Memory, write, and_not}
use cauchy.Pool.Rounding.{IsFloor, and_not-IsFloor, pow_pos}

-- Which of the three: `CAUCHY_OS_WINDOWS`, `_POSIX_VERSION`, or neither.
pub data Backend : Type 0 where
  windows : Backend
  posix : Backend
  portable : Backend

-- The allocators of the C library, by what they are called with: the address of a block, or 0.
-- `posix_memalign` returns an error instead of 0.
pub record Allocators : Type 0 where
  pub aligned_malloc : ℕ → ℕ → ℕ
  pub posix_memalign : ℕ → ℕ → Option ℕ
  pub malloc : ℕ → ℕ

-- `size + alignment + sizeof(void*)`
abbrev pub request : ℕ → ℕ → ℕ
request size alignment = (size + alignment + 8) % u64_mod

-- `aligned`, where `malloc` returned `ptr`
abbrev pub align : ℕ → ℕ → ℕ
align ptr alignment =
    and_not 64 ((ptr + alignment + 8) % u64_mod) ((alignment + u64_mod - 1) % u64_mod)

-- `((void**)aligned)[-1]`
abbrev pub header : ℕ → ℕ
header aligned = (aligned + u64_mod - 8) % u64_mod

-- `cauchy_aligned_alloc`
unfoldable pub aligned_alloc : Backend → Allocators → Memory → ℕ → ℕ → Memory × ℕ
aligned_alloc windows library memory size alignment =
    (memory, library.aligned_malloc size alignment)
aligned_alloc posix library memory size alignment =
    (memory, Option.get_or (library.posix_memalign alignment size) 0)
aligned_alloc portable library memory size alignment =
    let ptr = library.malloc (request size alignment) in
    let aligned = align ptr alignment in
    if ptr == 0 then (memory, 0) else (write memory (header aligned) ptr, aligned)

-- `cauchy_aligned_free`: the address that the C library is told to free.
unfoldable pub aligned_free : Backend → Memory → ℕ → Option ℕ
aligned_free backend memory zero = none
aligned_free windows memory (suc ptr) = some (suc ptr)
aligned_free posix memory (suc ptr) = some (suc ptr)
aligned_free portable memory (suc ptr) = some (memory (header (suc ptr)))

align-IsFloor :
    (ptr k : ℕ) → ptr + 2 ^ k + 8 < u64_mod → IsFloor (ptr + 2 ^ k + 8) (2 ^ k) (align ptr (2 ^ k))
align-IsFloor ptr k fits =
    let positive = pow_pos k in
    let sum : (ptr + 2 ^ k + 8) % u64_mod ≡ ptr + 2 ^ k + 8 = omega arith in
    let mask : (2 ^ k + u64_mod - 1) % u64_mod ≡ 2 ^ k - 1 = omega (arith, positive) in
    rw (sum, mask) (and_not-IsFloor 64 k (ptr + 2 ^ k + 8) (omega arith))

not_null : (ptr : ℕ) → 0 < ptr → (ptr == 0) ≡ false
not_null ptr given = ground arith

freed :
    (ptr a : ℕ) (memory used : Memory)
    → 8 ≤ a
    → a < u64_mod
    → ((x : ℕ) → x < a → used x ≡ write memory (header a) ptr x)
    → aligned_free portable used a ≡ some ptr
unfolding aligned_free
freed ptr zero memory used wide fits same = absurd (omega arith)
freed ptr (suc a) memory used wide fits same =
    let word : header (suc a) < suc a = omega arith in
    let stored : write memory (header (suc a)) ptr (header (suc a)) ≡ ptr =
      rw (==_refl (header (suc a))) refl in
    ap some (same (header (suc a)) word ∙ stored)

-- The portable form, for an alignment that is a power of two, and where `malloc` returns a block of
-- the size asked for that ends within the address space: what is handed out is a multiple of the
-- alignment, the `size` bytes from there and the word in front of them lie in the block of `malloc`,
-- and as long as nobody writes in front of these bytes, freeing them frees the block of `malloc`.
pub aligned_block :
    (library : Allocators) (size k : ℕ) (memory : Memory)
    → let ptr = library.malloc (request size (2 ^ k)) in
      0 < ptr
      → ptr + (size + 2 ^ k + 8) < u64_mod
      → (m : Memory) × (a : ℕ) × (factor : ℕ) × (aligned_alloc portable library memory size (2 ^ k)
          ≡ (m, a))
        × (a ≡ 2 ^ k * factor)
        × (ptr + 8 ≤ a)
        × (a + size ≤ ptr + request size (2 ^ k))
        × ((used : Memory)
            → ((x : ℕ) → x < a → used x ≡ m x)
            → aligned_free portable used a ≡ some ptr)
unfolding aligned_alloc aligned_free
aligned_block library size k memory given fits =
    let ptr = library.malloc (request size (2 ^ k)) in
    let floor = align-IsFloor ptr k (omega arith) in
    let some_block : (ptr == 0) ≡ false = not_null ptr given in
    rw some_block (
      _,
      _,
      floor.factor,
      refl,
      floor.multiple,
      omega (arith, floor.close),
      omega (arith, floor.below),
      λ used same.
          freed ptr (align ptr (2 ^ k)) memory used (omega (arith, floor.close))
            (omega (arith, floor.below)) same,
    )
