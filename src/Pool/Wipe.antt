-- ===== src/Pool/Wipe.antt =====
-- `cauchy_secure_zero` of src/core/memory.c. Here the memory holds a byte at each address.
use cauchy.Prelude.{ℕ, zero, suc, ◌+◌, ◌≡◌, ◌∙◌, ◌&&◌, ltb, if◌then◌else◌, arith, not}
use cauchy.Pool.{Memory, write}

-- `while (size--) *p++ = 0;`
unfoldable pub secure_zero : Memory → ℕ → ℕ → Memory
secure_zero memory p zero = memory
secure_zero memory p (suc size) = secure_zero (write memory p 0) (p + 1) size

-- Clearing writes 0 to each byte of the range, and to no other.
pub secure_zero_wipes :
    (memory : Memory) (p size x : ℕ)
    → secure_zero memory p size x ≡ (if not (ltb x p) && ltb x (p + size) then 0 else memory x)
unfolding secure_zero
secure_zero_wipes memory p zero x = ground arith
secure_zero_wipes memory p (suc size) x =
    secure_zero_wipes (write memory p 0) (p + 1) size x ∙ ground arith
