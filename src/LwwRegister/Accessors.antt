-- ===== src/LwwRegister/Accessors.antt =====
-- The accessors of src/crdt/lww_register.c for numbers and for strings. A string is a list of bytes
-- that a pointer to characters reaches.
use mathlib.Core.List.{append-nil, append_assoc}
use cauchy.Prelude.{
  ℕ, suc, ◌+◌, ◌<◌, ◌≡◌, refl, sym, ap, ◌∙◌, true, false, not, Option, none, some, List, [], ◌∷◌,
  ◌++◌, ◌==◌, ltb, length, take, take-append_eq, if◌then◌else◌, arith, length-append, drop,
  write_start, le→ltb, Bool-cases, inl, inr,
}
use cauchy.Types.{Result, ok}
use cauchy.Bytes.{Layout}
use cauchy.Bytes.Text.{strlen}
use cauchy.Cells.{u64_mod}
use cauchy.LwwRegister.{LwwRegister, later, max_value_size, store, set, get}
use cauchy.LwwRegister.Write.{take-store}

unfoldable pub set_string :
    Option LwwRegister → Option (List ℕ) → ℕ → ℕ → Result × Option LwwRegister
set_string reg none ts node = set reg none 0 ts node
set_string reg (some value) ts node = set reg (some value) (strlen value + 1) ts node

unfoldable pub get_string : Option LwwRegister → Option (List ℕ)
get_string reg = (get reg).0

module _ (layout : Layout) where
  open layout use {encode, decode, length-encode, decode-encode}

  unfoldable pub set_u64 : Option LwwRegister → ℕ → ℕ → ℕ → Result × Option LwwRegister
  set_u64 reg value ts node = set reg (some (encode 8 value)) 8 ts node

  abbrev pub number : Option (List ℕ) × ℕ → ℕ
  number (none, size) = 0
  number (some bytes, size) = if not (size == 8) then 0 else decode 8 (take 8 bytes)

  unfoldable pub get_u64 : Option LwwRegister → ℕ
  get_u64 reg = number (get reg)

  -- A number written under a later stamp reads back as it was, whatever the register held.
  pub lww_u64_round_trip :
      (reg : LwwRegister) (value ts node : ℕ)
      → value < u64_mod
      → later ts node reg ≡ true
      → (new : LwwRegister) × (set_u64 (some reg) value ts node ≡ (ok, some new))
        × (get_u64 (some new) ≡ value)
  unfolding set_u64 get_u64 set get
  lww_u64_round_trip reg value ts node fits newer =
      let bytes = encode 8 value in
      let size = length-encode 8 value in
      let whole : take 8 bytes ≡ bytes =
        ap (take 8) (sym (append-nil bytes)) ∙ take-append_eq 8 bytes [] (sym size) in
      (
        record {
          value = store reg.value (some bytes) 8;
          value_size = 8;
          timestamp = ts;
          node_id = node;
        },
        rw newer,
        rw (take-store reg.value bytes 8 (omega (arith, size)), whole) (decode-encode 8 value fits),
      )

strlen-append :
    (text rest : List ℕ) → strlen text ≡ length text → strlen (text ++ (0 ∷ rest)) ≡ length text
strlen-append [] rest clean = refl
strlen-append (b ∷ text) rest clean = elim (Bool-cases (b == 0)) [
  | inl zero_byte ↦ absurd (ground arith)
  | inr other ↦ rw other (ap suc (strlen-append text rest (ground arith)))
]

get_string-some : (reg : LwwRegister) → 0 < reg.value_size → get_string (some reg) ≡ some reg.value
unfolding get_string get
get_string-some reg any =
    let used : (reg.value_size == 0) ≡ false = ground arith in rw (get_string, used)

-- What a written string leaves in the array.
written_string :
    (old text rest : List ℕ)
    → (tail : List ℕ) × (store old (some (text ++ (0 ∷ rest))) (length text + 1)
        ≡ text ++ (0 ∷ tail))
written_string old text rest =
    let line = text ++ (0 ∷ []) in
    let size = length-append text (0 ∷ []) in
    let split = sym (append_assoc text (0 ∷ []) rest) in
    let any : ltb 0 (length text + 1) ≡ true = ground arith in
    let front : take (length text + 1) (text ++ (0 ∷ rest)) ≡ line =
      ap (take (length text + 1)) split
      ∙ take-append_eq (length text + 1) line rest (omega (arith, size)) in
    (
      drop (length line) old,
      rw (any, front) (write_start old line ∙ append_assoc text (0 ∷ []) (drop (length line) old)),
    )

-- A string of at most 255 bytes without a zero, written under a later stamp, is what the pointer
-- that reads it back shows in front of the first zero; an equal or earlier stamp leaves what was.
pub lww_string_round_trip :
    (reg : LwwRegister) (text rest : List ℕ) (ts node : ℕ)
    → strlen text ≡ length text
    → length text < max_value_size
    → (later ts node reg ≡ true
        → (new : LwwRegister) × (shown : List ℕ) × (set_string
              (some reg)
              (some (text ++ (0 ∷ rest)))
              ts
              node
            ≡ (ok, some new))
          × (get_string (some new) ≡ some shown)
          × (take (strlen shown) shown ≡ text))
      × (later ts node reg ≡ false
          → set_string (some reg) (some (text ++ (0 ∷ rest))) ts node ≡ (ok, some reg))
unfolding set_string get_string set get
lww_string_round_trip reg text rest ts node clean short =
    let bytes = text ++ (0 ∷ rest) in
    let size : strlen bytes ≡ length text = strlen-append text rest clean in
    let room : ltb max_value_size (length text + 1) ≡ false =
      le→ltb max_value_size (length text + 1) (omega arith) in
    let new : LwwRegister = record {
      value = store reg.value (some bytes) (length text + 1);
      value_size = length text + 1;
      timestamp = ts;
      node_id = node;
    } in
    let (tail, written) = written_string reg.value text rest in
    (
      λ newer. (
        new,
        text ++ (0 ∷ tail),
        rw (size, room, newer),
        get_string-some new (omega arith) ∙ ap some written,
        rw (strlen-append text tail clean) (take-append_eq (length text) text (0 ∷ tail) refl),
      ),
      λ stale. rw (size, room, stale),
    )
