-- ===== src/PnCounter/Wire.antt =====
-- `cauchy_pncounter_serialize` and `cauchy_pncounter_deserialize`: one counter behind the other in
-- one buffer. `buffer + k` is the list without its first `k` bytes.
use cauchy.Prelude.{
  ℕ, ◌+◌, ◌-◌, ◌*◌, ◌≤◌, ◌<◌, ◌≡◌, refl, sym, ap, ◌∙◌, Option, none, some, Bool-cases, false, List,
  ◌++◌, ltb, ◌==◌, length, take, drop, if◌then◌else◌, arith, ◌⊎◌, inl, inr, le→ltb, lt→ltb,
  take-append_eq, drop-append_eq, drop-drop, length-append, length-drop,
}
use cauchy.Types.{Result, ok, err_invalid}
use cauchy.Bytes.{Layout}
use cauchy.Cells.Wire.RoundTrip.{wire, length-wire}
use cauchy.GCounter
use cauchy.GCounter.{GCounter}
use cauchy.GCounter.Wire as CounterWire
use cauchy.PnCounter.{PnCounter, IsValid, held}

unfoldable pub serialized_size : Option PnCounter → ℕ
serialized_size none = 0
serialized_size (some pn) =
    CounterWire.serialized_size (some pn.positive) + CounterWire.serialized_size (some pn.negative)

-- The buffer, when the bytes from `k` on were written through `buffer + k`.
abbrev pub splice : Option (List ℕ) → ℕ → Option (List ℕ) → Option (List ℕ)
splice (some buffer) k (some rest) = some (take k buffer ++ rest)
splice buffer k _ = buffer

abbrev pub advance : Option (List ℕ) → ℕ → Option (List ℕ)
advance none k = none
advance (some buffer) k = some (drop k buffer)

module _ (layout : Layout) where
  unfoldable pub serialize : Option PnCounter → Option (List ℕ) → ℕ → ℕ × Option (List ℕ)
  serialize (some pn) (some buffer) size =
      if ltb size (serialized_size (some pn))
      then (0, some buffer)
      else (let (pos_size, out) =
            CounterWire.serialize layout (some pn.positive) (some buffer) size in
          if pos_size == 0
          then (0, out)
          else (let (neg_size, tail) =
                CounterWire.serialize layout (some pn.negative) (advance out pos_size)
                  (size - pos_size) in
              (if neg_size == 0 then 0 else pos_size + neg_size, splice out pos_size tail)))
  serialize pn buffer size = (0, buffer)

  -- The second counter, behind the first one.
  unfoldable pub deserialize_negative : PnCounter → List ℕ → ℕ → Result × Option PnCounter
  deserialize_negative pn buffer size =
      let pos_size = CounterWire.serialized_size (some pn.positive) in
      let (result, negative) =
        CounterWire.deserialize layout (some pn.negative) (some (drop pos_size buffer))
          (size - pos_size) in
      (result, some (record pn { negative = held negative pn.negative }))

  -- What follows the call for the first counter, given what that call returned and stored.
  unfoldable pub deserialize_rest :
      PnCounter → List ℕ → ℕ → Result × Option GCounter → Result × Option PnCounter
  unfolding deserialize_negative
  deserialize_rest pn buffer size (ok, stored) =
      deserialize_negative (record pn { positive = held stored pn.positive }) buffer size
  deserialize_rest pn buffer size (failure, stored) =
      (failure, some (record pn { positive = held stored pn.positive }))

  unfoldable pub deserialize : Option PnCounter → Option (List ℕ) → ℕ → Result × Option PnCounter
  unfolding deserialize_rest
  deserialize (some pn) (some buffer) size =
      if ltb size (4 * 2)
      then (err_invalid, some pn)
      else deserialize_rest pn buffer size
          (CounterWire.deserialize layout (some pn.positive) (some buffer) size)
  deserialize pn buffer size = (err_invalid, pn)

  -- The bytes of both counters.
  abbrev pair_wire : PnCounter → List ℕ → List ℕ
  pair_wire pn rest =
      wire layout pn.positive.counts pn.positive.num_nodes
      ++ (wire layout pn.negative.counts pn.negative.num_nodes ++ rest)

  module _ (pn : PnCounter) (v : IsValid pn) where
    abbrev p_size : ℕ
    p_size = CounterWire.serialized_size (some pn.positive)

    abbrev n_size : ℕ
    n_size = CounterWire.serialized_size (some pn.negative)

    sizes :
        (p_size ≡ length (wire layout pn.positive.counts pn.positive.num_nodes))
        × (n_size ≡ length (wire layout pn.negative.counts pn.negative.num_nodes))
        × (4 ≤ p_size)
        × (4 ≤ n_size)
    unfolding CounterWire.serialized_size
    sizes = (
      sym (
          length-wire layout pn.positive.counts pn.positive.num_nodes
            (omega (arith, v.positive.width, v.positive.active))),
      sym (
          length-wire layout pn.negative.counts pn.negative.num_nodes
            (omega (arith, v.negative.width, v.negative.active))),
      omega arith,
      omega arith,
    )

    serialize-pair_wire :
        (buffer : List ℕ) (size : ℕ)
        → p_size + n_size ≤ size
        → serialize (some pn) (some buffer) size
          ≡ (p_size + n_size, some (pair_wire pn (drop n_size (drop p_size buffer))))
    unfolding serialize serialized_size
    serialize-pair_wire buffer size room =
        let (p_length, n_length, p_pos, n_pos) = sizes in
        let first =
          CounterWire.serialize-wire layout pn.positive buffer size v.positive (omega arith) in
        let second =
          CounterWire.serialize-wire layout pn.negative (drop p_size buffer) (size - p_size)
            v.negative (omega arith) in
        let after =
          drop-append_eq p_size (wire layout pn.positive.counts pn.positive.num_nodes)
            (drop p_size buffer) p_length in
        let before =
          take-append_eq p_size (wire layout pn.positive.counts pn.positive.num_nodes)
            (drop p_size buffer) p_length in
        let p_some : (p_size == 0) ≡ false = ground arith in
        let n_some : (n_size == 0) ≡ false = ground arith in
        rw (le→ltb size (p_size + n_size) room, first, p_some, after, second, n_some, before)

    deserialize-pair_wire :
        (old : PnCounter) (rest : List ℕ) (size : ℕ)
        → p_size + n_size ≤ size
        → deserialize (some old) (some (pair_wire pn rest)) size ≡ (ok, some pn)
    unfolding deserialize
    deserialize-pair_wire old rest size covers =
        let (p_length, n_length, p_pos, n_pos) = sizes in
        let tail = wire layout pn.negative.counts pn.negative.num_nodes ++ rest in
        let first =
          CounterWire.deserialize-wire layout pn.positive old.positive tail size v.positive
            (omega arith) in
        let second =
          CounterWire.deserialize-wire layout pn.negative old.negative rest (size - p_size)
            v.negative (omega arith) in
        let after =
          drop-append_eq p_size (wire layout pn.positive.counts pn.positive.num_nodes) tail
            p_length in
        rw (le→ltb size 8 (omega arith), first, after, second)

  -- A well-formed PN-counter, serialized into a buffer that holds the declared size, comes back from
  -- any declared size that covers what was written, into any PN-counter; the buffer keeps its length
  -- and the bytes behind. A declared size that is too small writes nothing and returns zero.
  pub pn_round_trip :
      (pn : PnCounter) (buffer : List ℕ) (size : ℕ)
      → IsValid pn
      → size ≤ length buffer
      → (size < serialized_size (some pn)
          → serialize (some pn) (some buffer) size ≡ (0, some buffer))
        × (serialized_size (some pn) ≤ size
            → (out : List ℕ) × (serialize (some pn) (some buffer) size
                ≡ (serialized_size (some pn), some out))
              × (length out ≡ length buffer)
              × (drop (serialized_size (some pn)) out ≡ drop (serialized_size (some pn)) buffer)
              × ((old : PnCounter) (m : ℕ)
                  → serialized_size (some pn) ≤ m
                  → deserialize (some old) (some out) m ≡ (ok, some pn)))
  unfolding serialized_size
  pn_round_trip pn buffer size v held_bytes =
      let p = CounterWire.serialized_size (some pn.positive) in
      let n = CounterWire.serialized_size (some pn.negative) in
      let (p_length, n_length, _, _) = sizes pn v in
      let p_wire = wire layout pn.positive.counts pn.positive.num_nodes in
      let n_wire = wire layout pn.negative.counts pn.negative.num_nodes in
      let rest = drop n (drop p buffer) in
      (
        λ short. unfold serialize in rw (lt→ltb size (p + n) short),
        λ room. (
          pair_wire pn rest,
          serialize-pair_wire pn v buffer size room,
          omega (
            arith,
            p_length,
            n_length,
            length-append p_wire (n_wire ++ rest),
            length-append n_wire rest,
            length-drop n (drop p buffer),
            length-drop p buffer,
          ),
          sym (drop-drop n p (pair_wire pn rest))
              ∙ ap (drop n) (drop-append_eq p p_wire (n_wire ++ rest) p_length)
              ∙ drop-append_eq n n_wire rest n_length
              ∙ drop-drop n p buffer,
          λ old m covers. deserialize-pair_wire pn v old rest m covers,
        ),
      )

  -- Whatever bytes arrive, deserializing succeeds with a well-formed PN-counter, or answers that they
  -- are invalid; then the decrements are as they were, but the increments may already have been
  -- overwritten by well-formed ones.
  pub pn_deserialize_total :
      (pn : PnCounter) (buffer : List ℕ) (size : ℕ)
      → ((new : PnCounter) × (deserialize (some pn) (some buffer) size ≡ (ok, some new))
          × IsValid new)
        ⊎ ((p : GCounter) × (deserialize (some pn) (some buffer) size
              ≡ (err_invalid, some (record pn { positive = p })))
            × ((p ≡ pn.positive) ⊎ GCounter.IsValid p))
  unfolding deserialize
  pn_deserialize_total pn buffer size = elim (Bool-cases (ltb size 8)) [
    | inl short ↦ inr (pn.positive, rw short, inl refl)
    | inr long ↦ elim (CounterWire.counter_deserialize_total layout pn.positive buffer size) [
      | inl (refused, _) ↦ inr (pn.positive, rw (long, refused), inl refl)
      | inr (p, taken, _, p_ok) ↦
          let k = CounterWire.serialized_size (some p) in
          elim (CounterWire.counter_deserialize_total layout pn.negative (drop k buffer)
            (size - k)) [
              | inl (refused, _) ↦ inr (p, rw (long, taken, refused), inr p_ok)
              | inr (n, taken', _, n_ok) ↦ inl (
                record { positive = p; negative = n },
                rw (long, taken, taken'),
                record { positive = p_ok; negative = n_ok },
              )
            ]
    ]
  ]
