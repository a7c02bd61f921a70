-- ===== src/Pool/Rounding.antt =====
-- The size of the blocks of a pool, where the alignment is a power of two.
use native.Mathlib.Nat.{pow-suc, mul_assoc, mul-suc}
use cauchy.Prelude.{
  ℕ, zero, suc, ◌+◌, ◌-◌, ◌*◌, ◌/◌, ◌%◌, ◌^◌, ◌≤◌, ◌<◌, ◌≡◌, sym, ap, ◌∙◌, false, ◌==◌, ltb,
  if◌then◌else◌, arith, Bool-cases, inl, inr,
}
use cauchy.Cells.{u64_mod}
use cauchy.Pool.{and_not, actual_block_size}

pub pow_pos : (k : ℕ) → 0 < 2 ^ k
pow_pos zero = omega arith
pow_pos (suc k) = omega (arith, pow-suc 2 k, pow_pos k)

and_not_none : (bits x : ℕ) → x < 2 ^ bits → and_not bits x 0 ≡ x
and_not_none zero x lt = omega arith
and_not_none (suc bits) x lt =
    let rest = and_not_none bits (x / 2) (omega (arith, pow-suc 2 bits)) in ground (arith, rest)

eight_le : (k : ℕ) → 3 ≤ k → 8 ≤ 2 ^ k
eight_le zero wide = absurd (omega arith)
eight_le (suc zero) wide = absurd (omega arith)
eight_le (suc (suc zero)) wide = absurd (omega arith)
eight_le (suc (suc (suc k))) wide =
    omega (arith, pow-suc 2 k, pow-suc 2 (suc k), pow-suc 2 (suc (suc k)), pow_pos k)

and_not_step :
    (bits k x : ℕ) → and_not (suc bits) x (2 ^ suc k - 1) ≡ 2 * and_not bits (x / 2) (2 ^ k - 1)
and_not_step bits k x =
    let odd : (2 ^ suc k - 1) % 2 ≡ 1 = omega (arith, pow-suc 2 k, pow_pos k) in
    let half : (2 ^ suc k - 1) / 2 ≡ 2 ^ k - 1 = omega (arith, pow-suc 2 k, pow_pos k) in
    rw (odd, half)
      (elim (Bool-cases (x % 2 == 1)) [
        | inl one ↦ rw one (omega arith)
        | inr none ↦ rw none (omega arith)
      ])

-- The greatest multiple of `unit` up to `x`.
pub record IsFloor (x unit r : ℕ) : Type 0 where
  pub factor : ℕ
  pub multiple : r ≡ unit * factor
  pub below : r ≤ x
  pub close : x < r + unit

pub and_not-IsFloor : (bits k x : ℕ) → x < 2 ^ bits → IsFloor x (2 ^ k) (and_not bits x (2 ^ k - 1))
and_not-IsFloor bits zero x lt =
    let same = and_not_none bits x lt in
    record {
      factor = x;
      multiple = same ∙ omega arith;
      below = omega (arith, same);
      close = omega (arith, same);
    }
and_not-IsFloor zero (suc k) x lt = record {
  factor = 0;
  multiple = omega arith;
  below = omega arith;
  close = omega (arith, pow_pos (suc k));
}
and_not-IsFloor (suc bits) (suc k) x lt =
    let rest = and_not-IsFloor bits k (x / 2) (omega (arith, pow-suc 2 bits)) in
    let value = and_not_step bits k x in
    let next = pow-suc 2 k in
    let shift = mul_assoc 2 (2 ^ k) rest.factor in
    let power : 2 ^ suc k * rest.factor ≡ 2 * 2 ^ k * rest.factor =
      ap (λ p. p * rest.factor) (omega (arith, next)) in
    record {
      factor = rest.factor;
      multiple = value ∙ ap (λ r. 2 * r) rest.multiple ∙ sym shift ∙ sym power;
      below = omega (arith, value, rest.below);
      close = omega (arith, value, rest.close, next);
    }

least_multiple :
    (n p r : ℕ)
    → 0 < n
    → 8 ≤ p
    → IsFloor (n + p - 1) p r
    → let size = if ltb r 8 then 8 else r in
      (factor : ℕ) × (size ≡ p * factor) × (n ≤ size) × (size < n + p)
least_multiple n p r some wide floor =
    let enough : ltb r 8 ≡ false = go floor.factor floor.multiple in
    rw enough (floor.factor, floor.multiple, omega (arith, floor.close), omega (arith, floor.below))
  where
    go : (factor : ℕ) → r ≡ p * factor → ltb r 8 ≡ false
    go zero e = absurd (omega (arith, e, floor.close))
    go (suc factor) e = ground (arith, e, mul-suc p factor)

-- For an alignment that is a power of two, of 8 bytes or more, the size of a pool's blocks is the
-- least multiple of the alignment that holds what was asked for, as long as 64 bits hold it.
pub pool_block_size :
    (block_size k : ℕ)
    → 0 < block_size
    → 3 ≤ k
    → block_size + 2 ^ k < u64_mod
    → (factor : ℕ) × (actual_block_size block_size (2 ^ k) ≡ 2 ^ k * factor)
      × (block_size ≤ actual_block_size block_size (2 ^ k))
      × (actual_block_size block_size (2 ^ k) < block_size + 2 ^ k)
unfolding actual_block_size
pool_block_size block_size k some_bytes wide fits =
    let positive = pow_pos k in
    let asked : (block_size + 2 ^ k + u64_mod - 1) % u64_mod ≡ block_size + 2 ^ k - 1 =
      omega (arith, positive) in
    let mask : (2 ^ k + u64_mod - 1) % u64_mod ≡ 2 ^ k - 1 = omega (arith, positive) in
    rw (asked, mask)
      (least_multiple block_size (2 ^ k) (and_not 64 (block_size + 2 ^ k - 1) (2 ^ k - 1))
        some_bytes (eight_le k wide)
        (and_not-IsFloor 64 k (block_size + 2 ^ k - 1) (omega (arith, positive))))
