-- ===== src/LwwRegister/Wire/RoundTrip.antt =====
-- Serialized registers come back, and what a refused buffer leaves behind.
use mathlib.Core.List.{append_assoc}
use cauchy.Prelude.{
  ℕ, ◌+◌, ◌≤◌, ◌<◌, ◌≡◌, sym, ap, ◌∙◌, true, some, List, ◌++◌, ltb, length, take, drop, write,
  write_start, take-append_eq, drop-append_eq, length-take, length-append, length-drop,
  if◌then◌else◌, arith, Bool-cases, inl, inr, lt→ltb, le→ltb, ==_refl, list_eq_iff,
}
use cauchy.Types.{ok, err_invalid}
use cauchy.Bytes.{Layout}
use cauchy.LwwRegister.{LwwRegister, IsValid, content, max_value_size, get, equals}
use cauchy.LwwRegister.Wire.{
  serialized_size, serialize, deserialize, read_header, header, length-header, serialize-header,
  read_header-header,
}

module _ (layout : Layout) where
  open layout use {decode}

  -- The register that reading `reg` into `old` gives.
  abbrev read_into : LwwRegister → LwwRegister → LwwRegister
  read_into old reg = record {
    value = if ltb 0 reg.value_size then write old.value 0 (content reg) else old.value;
    value_size = reg.value_size;
    timestamp = reg.timestamp;
    node_id = reg.node_id;
  }

  length-content : (reg : LwwRegister) → IsValid reg → length (content reg) ≡ reg.value_size
  length-content reg v = omega (arith, length-take reg.value_size reg.value, v.width, v.used)

  content-read_into :
      (old reg : LwwRegister) → IsValid reg → content (read_into old reg) ≡ content reg
  content-read_into old reg v = elim (Bool-cases (ltb 0 reg.value_size)) [
    | inl any ↦
        rw (any, write_start old.value (content reg))
          (take-append_eq reg.value_size (content reg) (drop (length (content reg)) old.value)
            (sym (length-content reg v)))
    | inr empty ↦ let e : reg.value_size ≡ 0 = ground arith in rw (empty, e)
  ]

  equals-read_into :
      (old reg : LwwRegister) → IsValid reg → equals (some (read_into old reg)) (some reg) ≡ true
  unfolding equals
  equals-read_into old reg v =
      rw (==_refl reg.timestamp, ==_refl reg.node_id, ==_refl reg.value_size)
        ((list_eq_iff (content (read_into old reg)) (content reg)).1 (content-read_into old reg v))

  deserialize-header :
      (reg old : LwwRegister) (rest : List ℕ) (m : ℕ)
      → IsValid reg
      → 24 + reg.value_size ≤ m
      → deserialize layout (some old) (some ((header layout reg ++ content reg) ++ rest)) m
        ≡ (ok, some (read_into old reg))
  unfolding deserialize
  deserialize-header reg old rest m v room =
      let h = header layout reg in
      let assoc = append_assoc h (content reg) rest in
      let numbers = read_header-header layout reg old (content reg ++ rest) v in
      let time = ap (λ (r : LwwRegister). r.timestamp) numbers in
      let node = ap (λ (r : LwwRegister). r.node_id) numbers in
      let bytes = ap (λ (r : LwwRegister). r.value_size) numbers in
      let behind = drop-append_eq 24 h (content reg ++ rest) (sym (length-header layout reg)) in
      let front = take-append_eq reg.value_size (content reg) rest (sym (length-content reg v)) in
      elim (Bool-cases (ltb 0 reg.value_size)) [
        | inl any ↦ rw (
          assoc,
          le→ltb m 24 (omega arith),
          bytes,
          time,
          node,
          le→ltb max_value_size reg.value_size v.used,
          le→ltb m (24 + reg.value_size) room,
          any,
          behind,
          front,
        )
        | inr empty ↦ rw (
          assoc,
          le→ltb m 24 (omega arith),
          bytes,
          time,
          node,
          le→ltb max_value_size reg.value_size v.used,
          le→ltb m (24 + reg.value_size) room,
          empty,
        )
      ]

  -- A well-formed register, serialized into a buffer that holds the declared size, is read back from
  -- any declared size that covers what was written, into any register, as one equal to it; the buffer
  -- keeps its length and the bytes behind. A declared size that is too small writes nothing and
  -- returns zero.
  pub lww_round_trip :
      (reg : LwwRegister) (buffer : List ℕ) (size : ℕ)
      → IsValid reg
      → size ≤ length buffer
      → (size < serialized_size (some reg)
          → serialize layout (some reg) (some buffer) size ≡ (0, some buffer))
        × (serialized_size (some reg) ≤ size
            → (out : List ℕ) × (serialize layout (some reg) (some buffer) size
                ≡ (serialized_size (some reg), some out))
              × (length out ≡ length buffer)
              × (drop (serialized_size (some reg)) out ≡ drop (serialized_size (some reg)) buffer)
              × ((old : LwwRegister) (m : ℕ)
                  → serialized_size (some reg) ≤ m
                  → (new : LwwRegister) × (deserialize layout (some old) (some out) m
                      ≡ (ok, some new))
                    × (content new ≡ content reg)
                    × (equals (some new) (some reg) ≡ true)))
  unfolding serialized_size
  lww_round_trip reg buffer size v held =
      let front = header layout reg ++ content reg in
      let front_size : 24 + reg.value_size ≡ length front = omega (
        arith,
        length-append (header layout reg) (content reg),
        length-header layout reg,
        length-content reg v,
      ) in
      (
        λ short. unfold serialize in rw (lt→ltb size (24 + reg.value_size) short),
        λ room.
            let (rest, run, tail) = serialize-header layout reg buffer size v room in
            (
              front ++ rest,
              run,
              omega (
                arith,
                length-append front rest,
                front_size,
                ap length tail,
                length-drop (24 + reg.value_size) buffer,
              ),
              drop-append_eq (24 + reg.value_size) front rest front_size ∙ tail,
              λ old m covers. (
                read_into old reg,
                deserialize-header reg old rest m v covers,
                content-read_into old reg v,
                equals-read_into old reg v,
              ),
            ),
      )

  -- Of a well-formed register, a buffer that announces more than 256 bytes leaves one that is not:
  -- the call fails, yet afterwards the register reports the announced size, with the same array.
  pub lww_deserialize_overrun :
      (reg : LwwRegister) (buffer : List ℕ) (size : ℕ)
      → IsValid reg
      → 24 ≤ size
      → 256 < decode 8 (take 8 (drop 16 buffer))
      → (bad : LwwRegister) × (deserialize layout (some reg) (some buffer) size
          ≡ (err_invalid, some bad))
        × (get (some bad) ≡ (some reg.value, decode 8 (take 8 (drop 16 buffer))))
        × (length reg.value < (get (some bad)).1)
  unfolding deserialize get
  lww_deserialize_overrun reg buffer size v room large =
      let n = decode 8 (take 8 (drop 16 buffer)) in
      (
        read_header layout reg buffer,
        rw (le→ltb size 24 room, lt→ltb max_value_size n large),
        ground arith,
        ground (arith, v.width),
      )
