-- ===== src/Cells/Wire.antt =====
-- The wire format that src/core/vclock.c and src/crdt/g_counter.c share: the number of active
-- nodes in four bytes, then the active counts in eight bytes each.
pub mod RoundTrip
pub mod Accept
use cauchy.Prelude.{
  ℕ, zero, suc, ◌+◌, ◌*◌, ◌-◌, ◌≤◌, ◌<◌, ◌≡◌, refl, sym, ◌∙◌, ap, Option, none, some, List, [], ◌∷◌,
  ◌++◌, ltb, length, take, drop, replicate, write, if◌then◌else◌, arith, length-append, length-take,
  length-drop, take-append_eq, drop-append_eq, get_or-append, get_or-take, get_or-drop, Bool-cases,
  ltb→lt, ltb→le, get_or_past, ◌⊎◌, write-write, write_start, le→ltb, get_or-replicate,
  length-replicate, array_ext, inl, inr,
}
use mathlib.Core.List.{append_assoc}
use cauchy.Bytes.{Layout}
use cauchy.Cells.{max_nodes, u64_mod, at, IsCells}

-- `sizeof(u32) + n * sizeof(u64)`, which does not wrap for a `u32`
abbrev pub wire_size : ℕ → ℕ
wire_size n = 4 + n * 8

module _ (layout : Layout) where
  open layout use {encode, decode, length-encode, decode-encode, decode-lt}

  -- An array of `u64` as bytes.
  unfoldable pub encode_words : List ℕ → List ℕ
  encode_words [] = []
  encode_words (x ∷ xs) = encode 8 x ++ encode_words xs

  -- `n` numbers of type `u64` from bytes.
  unfoldable pub decode_words : ℕ → List ℕ → List ℕ
  decode_words zero bytes = []
  decode_words (suc n) bytes = decode 8 (take 8 bytes) ∷ decode_words n (drop 8 bytes)

  -- The two `memcpy` calls of a serializer.
  unfoldable pub put_cells : List ℕ → ℕ → List ℕ → List ℕ
  put_cells xs n buffer = write (write buffer 0 (encode 4 n)) 4 (encode_words (take n xs))

  -- The checks and the `memcpy` calls of a deserializer, into an array that was just cleared:
  -- `none` for `CAUCHY_ERR_INVALID`.
  unfoldable pub take_cells : List ℕ → ℕ → Option (List ℕ × ℕ)
  take_cells buffer size =
      let n = decode 4 (take 4 buffer) in
      if ltb size 4
      then none
      else if ltb max_nodes n
      then none
      else if ltb size (wire_size n)
      then none
      else some (write (replicate max_nodes 0) 0 (decode_words n (drop 4 buffer)), n)
