-- ===== src/Tests/LwwRegister.antt =====
-- Runs of the register functions, and the theorems about them at concrete registers.
use mathlib.Core.List.{Memᴰ}
use cauchy.Prelude.{
  ℕ, ◌≤◌, ◌<◌, ◌≡◌, ◌≢◌, refl, true, some, List, [], ◌∷◌, ◌⊎◌, ◌↔◌, replicate, length, drop, take,
  arith, ◌==◌, if◌then◌else◌,
}
use cauchy.Types.{ok, err_invalid}
use cauchy.Cells.{u64_mod}
use cauchy.Bytes.LittleEndian.{little_endian, decode}
use cauchy.Convergence.{SameStates, deliver}
use cauchy.LwwRegister.{LwwRegister, IsValid, content, init, set, get, merge, equals}
use cauchy.LwwRegister.Merge.{Stamp, stamp, IsWritten, registers, lww_merge_comm_iff, lww_converges}
use cauchy.LwwRegister.Wire.{serialized_size, serialize, deserialize}
use cauchy.LwwRegister.Wire.RoundTrip.{lww_round_trip, lww_deserialize_overrun}

-- One byte, written at a time by a node.
abbrev reg : ℕ → ℕ → ℕ → LwwRegister
reg byte ts node = record {
  value = byte ∷ replicate 255 0;
  value_size = 1;
  timestamp = ts;
  node_id = node;
}

reg-IsValid : (byte ts node : ℕ) → ts < u64_mod → node < u64_mod → IsValid (reg byte ts node)
reg-IsValid byte ts node ht hn = record {
  width = refl;
  used = omega arith;
  timestamp_fits = ht;
  node_fits = hn;
}

abbrev a : LwwRegister
a = reg 7 5 1

abbrev b : LwwRegister
b = reg 9 5 2

a-IsValid : IsValid a
a-IsValid = reg-IsValid 7 5 1 (omega arith) (omega arith)

b-IsValid : IsValid b
b-IsValid = reg-IsValid 9 5 2 (omega arith) (omega arith)

merge_run : merge (some a) (some b) ≡ some b
unfolding merge
merge_run = refl

-- Two registers under one stamp keep their own values.
same_stamp_run : merge (some (reg 7 5 1)) (some (reg 8 5 1)) ≡ some (reg 7 5 1)
unfolding merge
same_stamp_run = refl

-- The first write of node 0 at time 0 is reported as done, and is not.
zero_stamp_run : set (init (some a)) (some (4 ∷ [])) 1 0 0 ≡ (ok, init (some a))
unfolding set init
zero_stamp_run = refl

lww_merge_comm_iff_example :
    (merge (some a) (some b) ≡ merge (some b) (some a)) ↔ ((stamp a ≢ stamp b) ⊎ (a ≡ b))
lww_merge_comm_iff_example = lww_merge_comm_iff a b

abbrev written : Stamp → List ℕ
written (t, n) = if n == 1 then 7 ∷ [] else 9 ∷ []

a-IsWritten : IsWritten written a
a-IsWritten = record { valid = a-IsValid; agrees = refl }

b-IsWritten : IsWritten written b
b-IsWritten = record { valid = b-IsValid; agrees = refl }

same_messages : SameStates (registers written) (a ∷ b ∷ []) (b ∷ a ∷ b ∷ [])
same_messages = (forth, back)
  where
    forth : (m : LwwRegister) → Memᴰ m (a ∷ b ∷ []) → Memᴰ m (b ∷ a ∷ b ∷ [])
    forth m t = Memᴰ.tail t

    back : (m : LwwRegister) → Memᴰ m (b ∷ a ∷ b ∷ []) → Memᴰ m (a ∷ b ∷ [])
    back m (Memᴰ.head e) = Memᴰ.tail (Memᴰ.head e)
    back m (Memᴰ.tail t) = t

lww_converges_example :
    (c : LwwRegister) × (d : LwwRegister) × (deliver (registers written) a (a ∷ b ∷ []) ≡ some c)
    × (deliver (registers written) a (b ∷ a ∷ b ∷ []) ≡ some d)
    × (equals (some c) (some d) ≡ true)
    × (stamp c ≡ stamp d)
lww_converges_example =
    lww_converges written a (a ∷ b ∷ []) (b ∷ a ∷ b ∷ []) a-IsWritten
      (a-IsWritten, (b-IsWritten, tt)) (b-IsWritten, (a-IsWritten, (b-IsWritten, tt))) same_messages

abbrev buffer : List ℕ
buffer = replicate 32 7

lww_round_trip_example :
    (30 < serialized_size (some a)
      → serialize little_endian (some a) (some buffer) 30 ≡ (0, some buffer))
    × (serialized_size (some a) ≤ 30
        → (out : List ℕ) × (serialize little_endian (some a) (some buffer) 30
            ≡ (serialized_size (some a), some out))
          × (length out ≡ length buffer)
          × (drop (serialized_size (some a)) out ≡ drop (serialized_size (some a)) buffer)
          × ((old : LwwRegister) (m : ℕ)
              → serialized_size (some a) ≤ m
              → (new : LwwRegister) × (deserialize little_endian (some old) (some out) m
                  ≡ (ok, some new))
                × (content new ≡ content a)
                × (equals (some new) (some a) ≡ true)))
lww_round_trip_example = lww_round_trip little_endian a buffer 30 a-IsValid (omega arith)

announced : 256 < little_endian.decode 8 (take 8 (drop 16 buffer))
unfolding decode
announced = omega arith

lww_deserialize_overrun_example :
    (bad : LwwRegister) × (deserialize little_endian (some a) (some buffer) 32
      ≡ (err_invalid, some bad))
    × (get (some bad) ≡ (some a.value, little_endian.decode 8 (take 8 (drop 16 buffer))))
    × (length a.value < (get (some bad)).1)
lww_deserialize_overrun_example =
    lww_deserialize_overrun little_endian a buffer 32 a-IsValid (omega arith) announced
