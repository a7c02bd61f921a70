-- ===== src/GCounter/Wire.antt =====
-- `cauchy_gcounter_serialize`, `cauchy_gcounter_deserialize`, and the round trip. A buffer is the list
-- of the bytes behind its pointer; its declared size is an argument of its own, as in the source.
use cauchy.Prelude.{
  ◌++◌, ◌+◌, ◌*◌, ◌<◌, ◌≤◌, le→ltb, lt→ltb, ℕ, ◌≡◌, refl, Option, none, some, List, ltb, length,
  take, drop, if◌then◌else◌, arith, ◌⊎◌, inl, inr,
}
use cauchy.Types.{Result, ok, err_invalid}
use cauchy.Bytes.{Layout}
use cauchy.Cells.{max_nodes}
use cauchy.Cells.Wire.{wire_size, put_cells, take_cells}
use cauchy.Cells.Wire.RoundTrip.{wire, put_cells-eq, take_cells-wire, wire_frame}
use cauchy.Cells.Wire.Accept.{take_cells-IsCells}
use cauchy.GCounter.{GCounter, IsValid}

unfoldable pub serialized_size : Option GCounter → ℕ
serialized_size none = 0
serialized_size (some gc) = wire_size gc.num_nodes

module _ (layout : Layout) where
  -- The bytes written, and the buffer afterwards.
  unfoldable pub serialize : Option GCounter → Option (List ℕ) → ℕ → ℕ × Option (List ℕ)
  unfolding serialized_size
  serialize (some gc) (some buffer) buffer_size =
      let needed = serialized_size (some gc) in
      if ltb buffer_size needed
      then (0, some buffer)
      else (needed, some (put_cells layout gc.counts gc.num_nodes buffer))
  serialize gc buffer buffer_size = (0, buffer)

  unfoldable pub deserialize : Option GCounter → Option (List ℕ) → ℕ → Result × Option GCounter
  deserialize (some gc) (some buffer) buffer_size = elim (take_cells layout buffer buffer_size) [
    | none ↦ (err_invalid, some gc)
    | some (cells, n) ↦ (ok, some (record { counts = cells; num_nodes = n }))
  ]
  deserialize gc buffer buffer_size = (err_invalid, gc)

  deserialize-some :
      (gc : GCounter) (buffer : List ℕ) (size : ℕ) (cells : List ℕ) (n : ℕ)
      → take_cells layout buffer size ≡ some (cells, n)
      → deserialize (some gc) (some buffer) size
        ≡ (ok, some (record { counts = cells; num_nodes = n }))
  unfolding deserialize
  deserialize-some gc buffer size cells n e = rw (e, deserialize)

  deserialize-none :
      (gc : GCounter) (buffer : List ℕ) (size : ℕ)
      → take_cells layout buffer size ≡ none
      → deserialize (some gc) (some buffer) size ≡ (err_invalid, some gc)
  unfolding deserialize
  deserialize-none gc buffer size e = rw (e, deserialize)

  pub serialize-wire :
      (gc : GCounter) (buffer : List ℕ) (buffer_size : ℕ)
      → IsValid gc
      → serialized_size (some gc) ≤ buffer_size
      → serialize (some gc) (some buffer) buffer_size ≡ (
        serialized_size (some gc),
        some (wire layout gc.counts gc.num_nodes ++ drop (serialized_size (some gc)) buffer),
      )
  unfolding serialize serialized_size
  serialize-wire gc buffer buffer_size v room = rw (
    le→ltb buffer_size (wire_size gc.num_nodes) room,
    put_cells-eq layout gc.counts gc.num_nodes buffer (omega (arith, v.width, v.active)),
  )

  pub deserialize-wire :
      (gc old : GCounter) (rest : List ℕ) (size : ℕ)
      → IsValid gc
      → serialized_size (some gc) ≤ size
      → deserialize (some old) (some (wire layout gc.counts gc.num_nodes ++ rest)) size
        ≡ (ok, some gc)
  unfolding serialized_size
  deserialize-wire gc old rest size v covers =
      deserialize-some old _ size _ _
        (take_cells-wire layout gc.counts gc.num_nodes rest size v covers)

  -- A well-formed counter, serialized into a buffer that holds the declared size, comes back from any
  -- declared size that covers what was written, into any counter; the rest of the buffer is untouched.
  -- A declared size that is too small writes nothing and returns zero.
  pub counter_round_trip :
      (gc : GCounter) (buffer : List ℕ) (buffer_size : ℕ)
      → IsValid gc
      → buffer_size ≤ length buffer
      → (buffer_size < serialized_size (some gc)
          → serialize (some gc) (some buffer) buffer_size ≡ (0, some buffer))
        × (serialized_size (some gc) ≤ buffer_size
            → (out : List ℕ) × (serialize (some gc) (some buffer) buffer_size
                ≡ (serialized_size (some gc), some out))
              × (length out ≡ length buffer)
              × (drop (serialized_size (some gc)) out ≡ drop (serialized_size (some gc)) buffer)
              × ((old : GCounter) (size : ℕ)
                  → serialized_size (some gc) ≤ size
                  → deserialize (some old) (some out) size ≡ (ok, some gc)))
  unfolding serialize serialized_size
  counter_round_trip gc buffer buffer_size v held = (
    λ short. rw (lt→ltb buffer_size (wire_size gc.num_nodes) short),
    λ room.
        let (size, kept) =
          wire_frame layout gc.counts gc.num_nodes buffer (omega (arith, v.width, v.active))
            (omega arith) in
        (
          wire layout gc.counts gc.num_nodes ++ drop (wire_size gc.num_nodes) buffer,
          serialize-wire gc buffer buffer_size v room,
          size,
          kept,
          λ old m covers. deserialize-wire gc old _ m v covers,
        ),
  )

  -- Whatever bytes arrive, deserializing either answers that they are invalid and leaves the counter as
  -- it was, exactly when the declared size does not cover the header or what it announces, or when
  -- it announces too many nodes; or it succeeds with a well-formed counter.
  pub counter_deserialize_total :
      (gc : GCounter) (buffer : List ℕ) (size : ℕ)
      → let n = layout.decode 4 (take 4 buffer) in
        ((deserialize (some gc) (some buffer) size ≡ (err_invalid, some gc))
          × ((size < 4) ⊎ ((max_nodes < n) ⊎ (size < 4 + n * 8))))
        ⊎ ((new : GCounter) × (deserialize (some gc) (some buffer) size ≡ (ok, some new))
            × (new.num_nodes ≡ n)
            × IsValid new)
  counter_deserialize_total gc buffer size = elim (take_cells-IsCells layout buffer size) [
    | inl (refused, why) ↦ inl (deserialize-none gc buffer size refused, why)
    | inr (cells, taken, c) ↦ inr (
      record { counts = cells; num_nodes = layout.decode 4 (take 4 buffer) },
      deserialize-some gc buffer size cells _ taken,
      refl,
      c,
    )
  ]
