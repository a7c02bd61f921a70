-- ===== src/Bytes/LittleEndian.antt =====
-- The byte order of x86-64, and of ARM64 as it is commonly run: low byte first.
use native.Mathlib.Nat.{pow-suc}
use cauchy.Prelude.{
  ℕ, zero, suc, ◌+◌, ◌*◌, ◌/◌, ◌%◌, ◌^◌, ◌<◌, ◌≡◌, refl, ap, List, [], ◌∷◌, length, arith,
}
use cauchy.Bytes.{Layout}

pub encode : ℕ → ℕ → List ℕ
encode zero x = []
encode (suc width) x = (x % 256) ∷ encode width (x / 256)

unfoldable pub decode : ℕ → List ℕ → ℕ
decode zero bytes = 0
decode (suc width) [] = 0
decode (suc width) (b ∷ bytes) = b % 256 + 256 * decode width bytes

pub length-encode : (width x : ℕ) → length (encode width x) ≡ width
unfolding encode
length-encode zero x = refl
length-encode (suc width) x = ap suc (length-encode width (x / 256))

pub decode-encode : (width x : ℕ) → x < 256 ^ width → decode width (encode width x) ≡ x
unfolding encode decode
decode-encode zero x h = omega arith
decode-encode (suc width) x h =
    omega (arith, decode-encode width (x / 256) (omega (arith, pow-suc 256 width)))

pub decode-lt : (width : ℕ) (bytes : List ℕ) → decode width bytes < 256 ^ width
unfolding decode
decode-lt zero bytes = omega arith
decode-lt (suc width) [] = omega (arith, pow-suc 256 width, decode-lt width [])
decode-lt (suc width) (b ∷ bytes) = omega (arith, pow-suc 256 width, decode-lt width bytes)

abbrev pub little_endian : Layout
little_endian = record {
  encode = encode;
  decode = decode;
  length-encode = length-encode;
  decode-encode = decode-encode;
  decode-lt = decode-lt;
}
