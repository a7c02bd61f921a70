-- ===== src/Cells/Wire/Accept.antt =====
-- What the deserializers accept.
use cauchy.Prelude.{
  ℕ, zero, suc, ◌+◌, ◌-◌, ◌≤◌, ◌<◌, ◌≡◌, refl, ◌∙◌, ap, none, some, List, ltb, length, take, drop,
  replicate, write, arith, length-append, length-drop, get_or-append, get_or-drop, Bool-cases,
  ltb→lt, ltb→le, ◌⊎◌, write_start, get_or-replicate, length-replicate, inl, inr,
}
use cauchy.Bytes.{Layout}
use cauchy.Cells.{max_nodes, u64_mod, at, IsCells}
use cauchy.Cells.Wire.{wire_size, decode_words, take_cells}

module _ (layout : Layout) where
  open layout use {encode, decode, length-encode, decode-encode, decode-lt}

  pub length-decode_words : (n : ℕ) (bytes : List ℕ) → length (decode_words layout n bytes) ≡ n
  unfolding decode_words
  length-decode_words zero bytes = refl
  length-decode_words (suc n) bytes = ap suc (length-decode_words n (drop 8 bytes))

  at-decode_words-lt :
      (n : ℕ) (bytes : List ℕ) (i : ℕ) → at (decode_words layout n bytes) i < u64_mod
  unfolding decode_words
  at-decode_words-lt zero bytes i = omega arith
  at-decode_words-lt (suc n) bytes zero = decode-lt 8 (take 8 bytes)
  at-decode_words-lt (suc n) bytes (suc i) = at-decode_words-lt n (drop 8 bytes) i

  filled-IsCells :
      (words : List ℕ) (n : ℕ)
      → length words ≡ n
      → n ≤ max_nodes
      → ((i : ℕ) → at words i < u64_mod)
      → IsCells (write (replicate max_nodes 0) 0 words) n
  filled-IsCells words n size room small =
      let zeros = replicate {A = ℕ} max_nodes 0 in
      let cells = λ (i : ℕ). get_or-append words (drop (length words) zeros) i 0 in
      let past = λ (i : ℕ).
        get_or-drop (length words) zeros (i - length words) 0
        ∙ get_or-replicate {A = ℕ} max_nodes (length words + (i - length words)) 0 in
      rw (write_start zeros words) (record {
        width = omega (
          arith,
          length-append words (drop (length words) zeros),
          length-drop (length words) zeros,
          length-replicate {A = ℕ} max_nodes 0,
        );
        active = room;
        fits = λ i. ground (arith, cells i, past i, small i);
        clear = λ i h. ground (arith, cells i, past i);
      })

  -- Whatever the bytes are, what is accepted is well formed, and the only grounds for refusal are a
  -- size below the header, too many nodes, or a size below what the header announces.
  pub take_cells-IsCells :
      (buffer : List ℕ) (size : ℕ)
      → let n = decode 4 (take 4 buffer) in
        ((take_cells layout buffer size ≡ none)
          × ((size < 4) ⊎ ((max_nodes < n) ⊎ (size < wire_size n))))
        ⊎ ((xs : List ℕ) × (take_cells layout buffer size ≡ some (xs, n)) × IsCells xs n)
  unfolding take_cells
  take_cells-IsCells buffer size =
      let n = decode 4 (take 4 buffer) in
      elim (Bool-cases (ltb size 4)) [
        | inl short ↦ inl (rw short, inl (ltb→lt size 4 short))
        | inr header ↦ elim (Bool-cases (ltb max_nodes n)) [
          | inl many ↦ inl (rw (header, many), inr (inl (ltb→lt max_nodes n many)))
          | inr few ↦ elim (Bool-cases (ltb size (wire_size n))) [
            | inl short ↦ inl (rw (header, few, short), inr (inr (ltb→lt size (wire_size n) short)))
            | inr enough ↦
                let words = decode_words layout n (drop 4 buffer) in
                inr (
                  write (replicate max_nodes 0) 0 words,
                  rw (header, few, enough),
                  filled-IsCells words n (length-decode_words n (drop 4 buffer))
                      (ltb→le max_nodes n few) (at-decode_words-lt n (drop 4 buffer)),
                )
          ]
        ]
      ]
