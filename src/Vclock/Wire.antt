-- ===== src/Vclock/Wire.antt =====
-- `cauchy_vclock_serialize`, `cauchy_vclock_deserialize`, and the round trip. A buffer is the list
-- of the bytes behind its pointer; its declared size is an argument of its own, as in the source.
use cauchy.Prelude.{
  ◌++◌, ◌+◌, ◌*◌, ◌<◌, ◌≤◌, le→ltb, lt→ltb, ℕ, ◌≡◌, refl, Option, none, some, List, ltb, length,
  take, drop, if◌then◌else◌, arith, ◌⊎◌, inl, inr,
}
use cauchy.Types.{Result, ok, err_invalid}
use cauchy.Bytes.{Layout}
use cauchy.Cells.{max_nodes}
use cauchy.Cells.Wire.{wire_size, put_cells, take_cells}
use cauchy.Cells.Wire.RoundTrip.{wire, put_cells-eq, take_cells-wire, wire_frame}
use cauchy.Cells.Wire.Accept.{take_cells-IsCells}
use cauchy.Vclock.{Vclock, IsValid}

unfoldable pub serialized_size : Option Vclock → ℕ
serialized_size none = 0
serialized_size (some vc) = wire_size vc.num_nodes

module _ (layout : Layout) where
  -- The bytes written, and the buffer afterwards.
  unfoldable pub serialize : Option Vclock → Option (List ℕ) → ℕ → ℕ × Option (List ℕ)
  unfolding serialized_size
  serialize (some vc) (some buffer) buffer_size =
      let needed = serialized_size (some vc) in
      if ltb buffer_size needed
      then (0, some buffer)
      else (needed, some (put_cells layout vc.entries vc.num_nodes buffer))
  serialize vc buffer buffer_size = (0, buffer)

  unfoldable pub deserialize : Option Vclock → Option (List ℕ) → ℕ → Result × Option Vclock
  deserialize (some vc) (some buffer) buffer_size = elim (take_cells layout buffer buffer_size) [
    | none ↦ (err_invalid, some vc)
    | some (cells, n) ↦ (ok, some (record { entries = cells; num_nodes = n }))
  ]
  deserialize vc buffer buffer_size = (err_invalid, vc)

  deserialize-some :
      (vc : Vclock) (buffer : List ℕ) (size : ℕ) (cells : List ℕ) (n : ℕ)
      → take_cells layout buffer size ≡ some (cells, n)
      → deserialize (some vc) (some buffer) size
        ≡ (ok, some (record { entries = cells; num_nodes = n }))
  unfolding deserialize
  deserialize-some vc buffer size cells n e = rw (e, deserialize)

  deserialize-none :
      (vc : Vclock) (buffer : List ℕ) (size : ℕ)
      → take_cells layout buffer size ≡ none
      → deserialize (some vc) (some buffer) size ≡ (err_invalid, some vc)
  unfolding deserialize
  deserialize-none vc buffer size e = rw (e, deserialize)

  pub serialize-wire :
      (vc : Vclock) (buffer : List ℕ) (buffer_size : ℕ)
      → IsValid vc
      → serialized_size (some vc) ≤ buffer_size
      → serialize (some vc) (some buffer) buffer_size ≡ (
        serialized_size (some vc),
        some (wire layout vc.entries vc.num_nodes ++ drop (serialized_size (some vc)) buffer),
      )
  unfolding serialize serialized_size
  serialize-wire vc buffer buffer_size v room = rw (
    le→ltb buffer_size (wire_size vc.num_nodes) room,
    put_cells-eq layout vc.entries vc.num_nodes buffer (omega (arith, v.width, v.active)),
  )

  pub deserialize-wire :
      (vc old : Vclock) (rest : List ℕ) (size : ℕ)
      → IsValid vc
      → serialized_size (some vc) ≤ size
      → deserialize (some old) (some (wire layout vc.entries vc.num_nodes ++ rest)) size
        ≡ (ok, some vc)
  unfolding serialized_size
  deserialize-wire vc old rest size v covers =
      deserialize-some old _ size _ _
        (take_cells-wire layout vc.entries vc.num_nodes rest size v covers)

  -- A well-formed clock, serialized into a buffer that holds the declared size, comes back from any
  -- declared size that covers what was written, into any clock; the rest of the buffer is untouched.
  -- A declared size that is too small writes nothing and returns zero.
  pub deserialize-serialize :
      (vc : Vclock) (buffer : List ℕ) (buffer_size : ℕ)
      → IsValid vc
      → buffer_size ≤ length buffer
      → (buffer_size < serialized_size (some vc)
          → serialize (some vc) (some buffer) buffer_size ≡ (0, some buffer))
        × (serialized_size (some vc) ≤ buffer_size
            → (out : List ℕ) × (serialize (some vc) (some buffer) buffer_size
                ≡ (serialized_size (some vc), some out))
              × (length out ≡ length buffer)
              × (drop (serialized_size (some vc)) out ≡ drop (serialized_size (some vc)) buffer)
              × ((old : Vclock) (size : ℕ)
                  → serialized_size (some vc) ≤ size
                  → deserialize (some old) (some out) size ≡ (ok, some vc)))
  unfolding serialize serialized_size
  deserialize-serialize vc buffer buffer_size v held = (
    λ short. rw (lt→ltb buffer_size (wire_size vc.num_nodes) short),
    λ room.
        let (size, kept) =
          wire_frame layout vc.entries vc.num_nodes buffer (omega (arith, v.width, v.active))
            (omega arith) in
        (
          wire layout vc.entries vc.num_nodes ++ drop (wire_size vc.num_nodes) buffer,
          serialize-wire vc buffer buffer_size v room,
          size,
          kept,
          λ old m covers. deserialize-wire vc old _ m v covers,
        ),
  )

  -- Whatever bytes arrive, deserializing either answers that they are invalid and leaves the clock as
  -- it was, exactly when the declared size does not cover the header or what it announces, or when
  -- it announces too many nodes; or it succeeds with a well-formed clock.
  pub deserialize_total :
      (vc : Vclock) (buffer : List ℕ) (size : ℕ)
      → let n = layout.decode 4 (take 4 buffer) in
        ((deserialize (some vc) (some buffer) size ≡ (err_invalid, some vc))
          × ((size < 4) ⊎ ((max_nodes < n) ⊎ (size < 4 + n * 8))))
        ⊎ ((new : Vclock) × (deserialize (some vc) (some buffer) size ≡ (ok, some new))
            × (new.num_nodes ≡ n)
            × IsValid new)
  deserialize_total vc buffer size = elim (take_cells-IsCells layout buffer size) [
    | inl (refused, why) ↦ inl (deserialize-none vc buffer size refused, why)
    | inr (cells, taken, c) ↦ inr (
      record { entries = cells; num_nodes = layout.decode 4 (take 4 buffer) },
      deserialize-some vc buffer size cells _ taken,
      refl,
      c,
    )
  ]
