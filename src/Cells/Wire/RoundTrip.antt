-- ===== src/Cells/Wire/RoundTrip.antt =====
-- What the serializers write, and that the deserializers read it back.
use cauchy.Prelude.{
  ℕ, suc, ◌+◌, ◌*◌, ◌-◌, ◌≤◌, ◌<◌, ◌≡◌, refl, sym, ◌∙◌, ap, some, List, [], ◌∷◌, ◌++◌, ltb, length,
  take, drop, replicate, write, arith, length-append, length-take, length-drop, take-append_eq,
  drop-append_eq, get_or-append, get_or-take, get_or-drop, Bool-cases, ltb→lt, ltb→le, get_or_past,
  write-write, write_start, le→ltb, get_or-replicate, array_ext, inl, inr,
}
use mathlib.Core.List.{append_assoc}
use cauchy.Bytes.{Layout}
use cauchy.Cells.{max_nodes, u64_mod, at, IsCells}
use cauchy.Cells.Wire.{wire_size, encode_words, decode_words, put_cells, take_cells}

module _ (layout : Layout) where
  open layout use {encode, decode, length-encode, decode-encode, decode-lt}

  length-encode_words : (xs : List ℕ) → length (encode_words layout xs) ≡ length xs * 8
  unfolding encode_words
  length-encode_words [] = omega arith
  length-encode_words (x ∷ xs) = omega (
    arith,
    length-append (encode 8 x) (encode_words layout xs),
    length-encode 8 x,
    length-encode_words xs,
  )

  decode_words-encode_words :
      (xs rest : List ℕ)
      → ((i : ℕ) → at xs i < u64_mod)
      → decode_words layout (length xs) (encode_words layout xs ++ rest) ≡ xs
  unfolding encode_words decode_words
  decode_words-encode_words [] rest small = refl
  decode_words-encode_words (x ∷ xs) rest small =
      let more = encode_words layout xs ++ rest in
      let size = sym (length-encode 8 x) in
      rw (
        append_assoc (encode 8 x) (encode_words layout xs) rest,
        take-append_eq 8 (encode 8 x) more size,
        drop-append_eq 8 (encode 8 x) more size,
        decode-encode 8 x (small 0),
        decode_words-encode_words xs rest (λ i. small (suc i)),
      )

  -- The bytes of the active cells.
  abbrev pub wire : List ℕ → ℕ → List ℕ
  wire xs n = encode 4 n ++ encode_words layout (take n xs)

  pub length-wire : (xs : List ℕ) (n : ℕ) → n ≤ length xs → length (wire xs n) ≡ wire_size n
  length-wire xs n fits = omega (
    arith,
    length-append (encode 4 n) (encode_words layout (take n xs)),
    length-encode 4 n,
    length-encode_words (take n xs),
    length-take n xs,
  )

  -- A buffer gets the header and the counts, and keeps the bytes behind them.
  pub put_cells-eq :
      (xs : List ℕ) (n : ℕ) (buffer : List ℕ)
      → n ≤ length xs
      → put_cells layout xs n buffer ≡ wire xs n ++ drop (wire_size n) buffer
  unfolding put_cells
  put_cells-eq xs n buffer fits =
      let words = encode_words layout (take n xs) in
      let size : 4 + length words ≡ wire_size n =
        omega (arith, length-encode_words (take n xs), length-take n xs) in
      write-write buffer (encode 4 n) words 4 (sym (length-encode 4 n))
      ∙ ap (λ k. encode 4 n ++ (words ++ drop k buffer)) size
      ∙ sym (append_assoc (encode 4 n) words (drop (wire_size n) buffer))

  at-take-lt : {xs : List ℕ} {n : ℕ} → IsCells xs n → (i : ℕ) → at (take n xs) i < u64_mod
  at-take-lt {xs} {n} c i = elim (Bool-cases (ltb i n)) [
    | inl within ↦ rw (get_or-take n xs i 0 (ltb→lt i n within)) (c.fits i)
    | inr past ↦
        omega
          (arith, get_or_past (take n xs) i 0 (omega (arith, length-take n xs, ltb→le i n past)))
  ]

  -- The active cells, put back into a clear array, are the array they came from.
  refill : {xs : List ℕ} {n : ℕ} → IsCells xs n → write (replicate max_nodes 0) 0 (take n xs) ≡ xs
  refill {xs} {n} c =
      let zeros = replicate {A = ℕ} max_nodes 0 in
      let size = length-take n xs in
      write_start zeros (take n xs)
      ∙ array_ext (take n xs ++ drop (length (take n xs)) zeros) xs 0
          (omega (
            arith,
            length-append (take n xs) (drop (length (take n xs)) zeros),
            length-drop (length (take n xs)) zeros,
            c.width,
            c.active,
          ))
          λ i. ground (
            arith,
            get_or-append (take n xs) (drop (length (take n xs)) zeros) i 0,
            get_or-take n xs i 0,
            get_or-drop (length (take n xs)) zeros (i - length (take n xs)) 0,
            get_or-replicate {A = ℕ} max_nodes (length (take n xs) + (i - length (take n xs))) 0,
            c.clear i,
            c.width,
            c.active,
          )

  -- The bytes of well-formed cells, whatever follows them, give the cells back to a deserializer
  -- whose declared size covers them.
  pub take_cells-wire :
      (xs : List ℕ) (n : ℕ) (rest : List ℕ) (size : ℕ)
      → IsCells xs n
      → wire_size n ≤ size
      → take_cells layout (wire xs n ++ rest) size ≡ some (xs, n)
  unfolding take_cells
  take_cells-wire xs n rest size c fits =
      let words = encode_words layout (take n xs) in
      let split = append_assoc (encode 4 n) words rest in
      let at_4 = sym (length-encode 4 n) in
      let header : decode 4 (take 4 (wire xs n ++ rest)) ≡ n =
        ap (λ b. decode 4 (take 4 b)) split
        ∙ ap (decode 4) (take-append_eq 4 (encode 4 n) (words ++ rest) at_4)
        ∙ decode-encode 4 n (omega (arith, c.active)) in
      let body : decode_words layout n (drop 4 (wire xs n ++ rest)) ≡ take n xs =
        ap (λ b. decode_words layout n (drop 4 b)) split
        ∙ ap (decode_words layout n) (drop-append_eq 4 (encode 4 n) (words ++ rest) at_4)
        ∙ ap (λ k. decode_words layout k (words ++ rest))
            (let k : n ≡ length (take n xs) = omega (arith, length-take n xs, c.width, c.active) in
              k)
        ∙ decode_words-encode_words (take n xs) rest (λ i. at-take-lt c i) in
      rw (
        header,
        le→ltb size 4 (omega arith),
        le→ltb max_nodes n c.active,
        le→ltb size (wire_size n) fits,
        body,
        refill c,
      )

  -- A buffer that begins with the bytes has the size of the old one and its other bytes.
  pub wire_frame :
      (xs : List ℕ) (n : ℕ) (buffer : List ℕ)
      → n ≤ length xs
      → wire_size n ≤ length buffer
      → (length (wire xs n ++ drop (wire_size n) buffer) ≡ length buffer)
        × (drop (wire_size n) (wire xs n ++ drop (wire_size n) buffer) ≡ drop (wire_size n) buffer)
  wire_frame xs n buffer fits room =
      let rest = drop (wire_size n) buffer in
      let head = length-wire xs n fits in
      (
        omega (arith, head, length-append (wire xs n) rest, length-drop (wire_size n) buffer),
        drop-append_eq (wire_size n) (wire xs n) rest (sym head),
      )
