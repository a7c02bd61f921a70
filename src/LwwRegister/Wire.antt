-- ===== src/LwwRegister/Wire.antt =====
-- `cauchy_lww_serialize` and `cauchy_lww_deserialize`, and the accessors for numbers. The fields are
-- stored as they are read, before they are checked.
pub mod RoundTrip
use mathlib.Core.List.{append_assoc, append-nil}
use cauchy.Prelude.{
  ℕ, ◌+◌, ◌*◌, ◌^◌, ◌≤◌, ◌<◌, ◌≡◌, refl, sym, ap, ap₂, ◌∙◌, Bool, true, Option, none, some, List,
  ◌++◌, ltb, ◌==◌, not, length, take, drop, write, write_start, take-append_eq, drop-append_eq,
  write_append, drop-drop, length-take, length-append, length-drop, if◌then◌else◌, arith,
  Bool-cases, inl, inr, lt→ltb, le→ltb, list_eq_refl, list_eq, ==_refl,
}
use cauchy.Types.{Result, ok, err_invalid}
use cauchy.Bytes.{Layout}
use cauchy.Cells.{u64_mod}
use cauchy.LwwRegister.{LwwRegister, IsValid, content, max_value_size, set, get, equals}

abbrev header_size : ℕ
header_size = 8 + 8 + 8

unfoldable pub serialized_size : Option LwwRegister → ℕ
serialized_size none = 0
serialized_size (some reg) = 8 + 8 + 8 + reg.value_size

module _ (layout : Layout) where
  open layout use {encode, decode, length-encode, decode-encode}

  unfoldable pub serialize : Option LwwRegister → Option (List ℕ) → ℕ → ℕ × Option (List ℕ)
  serialize (some reg) (some buffer) size =
      if ltb size (serialized_size (some reg))
      then (0, some buffer)
      else (let b = write buffer 0 (encode 8 reg.timestamp) in
          let b = write b 8 (encode 8 reg.node_id) in
          let b = write b 16 (encode 8 reg.value_size) in
          (
            serialized_size (some reg),
            some (if ltb 0 reg.value_size then write b 24 (take reg.value_size reg.value) else b),
          ))
  serialize reg buffer size = (0, buffer)

  -- The register after its three numbers were read.
  abbrev pub read_header : LwwRegister → List ℕ → LwwRegister
  read_header reg buffer = record reg {
    timestamp = decode 8 (take 8 buffer);
    node_id = decode 8 (take 8 (drop 8 buffer));
    value_size = decode 8 (take 8 (drop 16 buffer));
  }

  unfoldable pub deserialize :
      Option LwwRegister → Option (List ℕ) → ℕ → Result × Option LwwRegister
  deserialize (some reg) (some buffer) size =
      if ltb size 24
      then (err_invalid, some reg)
      else (let r = read_header reg buffer in
          if ltb max_value_size r.value_size
          then (err_invalid, some r)
          else if ltb size (24 + r.value_size)
          then (err_invalid, some r)
          else if ltb 0 r.value_size
          then (
            ok,
            some (record r { value = write r.value 0 (take r.value_size (drop 24 buffer)) }),
          )
          else (ok, some r))
  deserialize reg buffer size = (err_invalid, reg)

  -- The three numbers of the header, and the bytes of a register.
  abbrev pub header : LwwRegister → List ℕ
  header reg = (encode 8 reg.timestamp ++ encode 8 reg.node_id) ++ encode 8 reg.value_size

  pub length-header : (reg : LwwRegister) → length (header reg) ≡ 24
  length-header reg = omega (
    arith,
    length-append (encode 8 reg.timestamp ++ encode 8 reg.node_id) (encode 8 reg.value_size),
    length-append (encode 8 reg.timestamp) (encode 8 reg.node_id),
    length-encode 8 reg.timestamp,
    length-encode 8 reg.node_id,
    length-encode 8 reg.value_size,
  )

  pub serialize-header :
      (reg : LwwRegister) (buffer : List ℕ) (size : ℕ)
      → IsValid reg
      → serialized_size (some reg) ≤ size
      → (rest : List ℕ) × (serialize (some reg) (some buffer) size
          ≡ (serialized_size (some reg), some ((header reg ++ content reg) ++ rest)))
        × (rest ≡ drop (serialized_size (some reg)) buffer)
  unfolding serialize serialized_size
  serialize-header reg buffer size v room =
      let e1 = encode 8 reg.timestamp in
      let e2 = encode 8 reg.node_id in
      let e3 = encode 8 reg.value_size in
      let l1 = length-encode 8 reg.timestamp in
      let l2 = length-encode 8 reg.node_id in
      let l3 = length-encode 8 reg.value_size in
      let x1 = drop (length e1) buffer in
      let x2 = drop (length e2) x1 in
      let x3 = drop (length e3) x2 in
      let b1 = write_start buffer e1 in
      let b2 = write_append e1 x1 e2 8 (sym l1) in
      let b3 = write_append (e1 ++ e2) x2 e3 16 (omega (arith, length-append e1 e2, l1, l2)) in
      let sum : length e1 + (length e2 + length e3) ≡ 24 = omega (arith, l1, l2, l3) in
      let three : drop 24 buffer ≡ x3 = sym (
        drop-drop (length e3) (length e2) x1
        ∙ drop-drop (length e2 + length e3) (length e1) buffer
        ∙ ap (λ k. drop k buffer) sum) in
      let used : length (content reg) ≡ reg.value_size =
        omega (arith, length-take reg.value_size reg.value, v.width, v.used) in
      elim (Bool-cases (ltb 0 reg.value_size)) [
        | inl any ↦ (
          drop (length (content reg)) x3,
          rw (
            le→ltb size (24 + reg.value_size) room,
            b1,
            b2,
            b3,
            any,
            write_append (header reg) x3 (content reg) 24 (sym (length-header reg)),
          ),
          ap (drop (length (content reg))) (sym three)
              ∙ drop-drop (length (content reg)) 24 buffer
              ∙ ap (λ k. drop (24 + k) buffer) used,
        )
        | inr empty ↦
            let none_used : reg.value_size ≡ 0 = ground arith in
            let all : 24 ≡ 24 + reg.value_size = omega (arith, none_used) in
            (
              x3,
              rw (le→ltb size (24 + reg.value_size) room, b1, b2, b3, empty)
                  (ap (λ l. (24 + reg.value_size, some (l ++ x3)))
                    (sym (append-nil (header reg))
                      ∙ ap (λ k. header reg ++ take k reg.value) (sym none_used))),
              sym three ∙ ap (λ k. drop k buffer) all,
            )
      ]

  -- The header reads back.
  pub read_header-header :
      (reg old : LwwRegister) (tail : List ℕ)
      → IsValid reg
      → read_header old (header reg ++ tail) ≡ record {
        value = old.value;
        value_size = reg.value_size;
        timestamp = reg.timestamp;
        node_id = reg.node_id;
      }
  read_header-header reg old tail v =
      let e1 = encode 8 reg.timestamp in
      let e2 = encode 8 reg.node_id in
      let e3 = encode 8 reg.value_size in
      let l1 = length-encode 8 reg.timestamp in
      let l2 = length-encode 8 reg.node_id in
      let l3 = length-encode 8 reg.value_size in
      let l12 : 16 ≡ length (e1 ++ e2) = omega (arith, length-append e1 e2, l1, l2) in
      let first : (e1 ++ e2) ++ (e3 ++ tail) ≡ e1 ++ (e2 ++ (e3 ++ tail)) =
        append_assoc e1 e2 (e3 ++ tail) in
      let size : reg.value_size < 256 ^ 8 = omega (arith, v.used) in
      rw (
        append_assoc (e1 ++ e2) e3 tail,
        drop-append_eq 16 (e1 ++ e2) (e3 ++ tail) l12,
        first,
        take-append_eq 8 e1 (e2 ++ (e3 ++ tail)) (sym l1),
        drop-append_eq 8 e1 (e2 ++ (e3 ++ tail)) (sym l1),
        take-append_eq 8 e2 (e3 ++ tail) (sym l2),
        take-append_eq 8 e3 tail (sym l3),
        decode-encode 8 reg.timestamp v.timestamp_fits,
        decode-encode 8 reg.node_id v.node_fits,
        decode-encode 8 reg.value_size size,
      )
