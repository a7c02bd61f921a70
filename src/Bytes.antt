-- ===== src/Bytes.antt =====
-- Object representations: what `memcpy` of an integer to and from a `u8` buffer relies on. The
-- byte order belongs to the machine, so the wire formats take a `Layout`.
pub mod LittleEndian
pub mod Text
use cauchy.Prelude.{ℕ, ◌^◌, ◌<◌, ◌≡◌, List, length}

-- `width` is `sizeof` of the integer type.
pub record Layout : Type 0 where
  pub encode : ℕ → ℕ → List ℕ
  pub decode : ℕ → List ℕ → ℕ
  pub length-encode : (width x : ℕ) → length (encode width x) ≡ width
  pub decode-encode : (width x : ℕ) → x < 256 ^ width → decode width (encode width x) ≡ x
  pub decode-lt : (width : ℕ) (bytes : List ℕ) → decode width bytes < 256 ^ width
