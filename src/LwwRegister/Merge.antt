-- ===== src/LwwRegister/Merge.antt =====
-- Merging registers: the later stamp wins, and where replicas converge.
use mathlib.Core.Option.{some-injective}
use cauchy.Prelude.{
  ℕ, ◌≡◌, ◌≢◌, refl, sym, ap, ◌∙◌, true, false, ◌&&◌, ◌||◌, some, List, ltb, ◌==◌, take,
  list_eq_iff, length, length-take, ==_iff, if◌then◌else◌, arith, Bool-cases, inl, inr, ◌⊎◌, ◌↔◌,
}
use cauchy.Convergence.{Semilattice, Crdt, SameStates, AllStates, deliver, deliver_converges}
use cauchy.LwwRegister.{LwwRegister, IsValid, content, later, merge, equals}

-- A time stamp and a node.
abbrev pub Stamp : Type 0
Stamp = ℕ × ℕ

abbrev pub stamp : LwwRegister → Stamp
stamp reg = (reg.timestamp, reg.node_id)

abbrev pub later_of : Stamp → Stamp → Stamp
later_of (t, n) (t', n') = if ltb t t' || (t' == t && ltb n n') then (t', n') else (t, n)

pub later_of_comm : (u v : Stamp) → later_of u v ≡ later_of v u
later_of_comm (t, n) (t', n') = ground arith

pub later_of_assoc : (u v w : Stamp) → later_of (later_of u v) w ≡ later_of u (later_of v w)
later_of_assoc (t, n) (t', n') (t'', n'') = ground arith

pub later_of_idem : (v : Stamp) → later_of v v ≡ v
later_of_idem (t, n) = ground arith

abbrev pub stamps : Semilattice Stamp
stamps = record {
  join = later_of;
  join_comm = later_of_comm;
  join_assoc = later_of_assoc;
  join_idem = later_of_idem;
}

-- On registers merging commutes exactly where the stamps differ or the registers are the same: two
-- writes under one stamp are never reconciled.
pub lww_merge_comm_iff :
    (a b : LwwRegister)
    → (merge (some a) (some b) ≡ merge (some b) (some a)) ↔ ((stamp a ≢ stamp b) ⊎ (a ≡ b))
unfolding merge
lww_merge_comm_iff a b = elim (Bool-cases (a.timestamp == b.timestamp && a.node_id == b.node_id)) [
  | inl same ↦
      let keeps_a : later b.timestamp b.node_id a ≡ false = ground arith in
      let keeps_b : later a.timestamp a.node_id b ≡ false = ground arith in
      rw (keeps_a, keeps_b) (λ e. inr (some-injective a b e), λ d. settle (equal_stamps same) d)
  | inr differ ↦ (λ _. inl (λ e. cc (sym differ ∙ same_stamps e)), λ _. either_later differ)
]
  where
    settle : stamp a ≡ stamp b → (stamp a ≢ stamp b) ⊎ (a ≡ b) → some a ≡ some b
    settle e (inl differ) = absurd (differ e)
    settle e (inr h) = ap some h

    equal_stamps : (a.timestamp == b.timestamp && a.node_id == b.node_id) ≡ true → stamp a ≡ stamp b
    equal_stamps h = ground arith

    same_stamps : stamp a ≡ stamp b → (a.timestamp == b.timestamp && a.node_id == b.node_id) ≡ true
    same_stamps e =
        let t = ap (λ (s : Stamp). s.0) e in
        let n = ap (λ (s : Stamp). s.1) e in ground (arith, t, n)

    either_later :
        (a.timestamp == b.timestamp && a.node_id == b.node_id) ≡ false
        → (if later b.timestamp b.node_id a then some b else some a)
          ≡ (if later a.timestamp a.node_id b then some a else some b)
    either_later h = ground arith

-- Every write under a stamp wrote the bytes that `written` gives for it.
module _ (written : Stamp → List ℕ) where
  pub record IsWritten (reg : LwwRegister) : Type 0 where
    pub valid : IsValid reg
    pub agrees : content reg ≡ written (stamp reg)

  pub merge-stamp :
      (a b : LwwRegister)
      → IsWritten a
      → IsWritten b
      → (c : LwwRegister) × (merge (some a) (some b) ≡ some c)
        × IsWritten c
        × (stamp c ≡ later_of (stamp a) (stamp b))
  unfolding merge
  merge-stamp a b ha hb = elim (Bool-cases (later b.timestamp b.node_id a)) [
    | inl newer ↦ (b, rw newer, hb, rw newer)
    | inr older ↦ (a, rw older, ha, rw older)
  ]

  abbrev pub registers : Crdt LwwRegister Stamp
  registers = record {
    lattice = stamps;
    IsState = IsWritten;
    view = stamp;
    merge = λ a b. merge (some a) (some b);
    merge-view = merge-stamp;
  }

  same_stamp-equals :
      (c d : LwwRegister)
      → IsWritten c
      → IsWritten d
      → stamp c ≡ stamp d
      → equals (some c) (some d) ≡ true
  unfolding equals
  same_stamp-equals c d hc hd e =
      let same = hc.agrees ∙ ap written e ∙ sym hd.agrees in
      let time : c.timestamp ≡ d.timestamp = ap (λ (s : Stamp). s.0) e in
      let node : c.node_id ≡ d.node_id = ap (λ (s : Stamp). s.1) e in
      let size : c.value_size ≡ d.value_size = omega (
        arith,
        ap length same,
        length-take c.value_size c.value,
        length-take d.value_size d.value,
        hc.valid,
        hd.valid,
      ) in
      rw
        (
          (==_iff c.timestamp d.timestamp).1 time,
          (==_iff c.node_id d.node_id).1 node,
          (==_iff c.value_size d.value_size).1 size,
        )
        ((list_eq_iff (take c.value_size c.value) (take c.value_size d.value)).1
          (same ∙ ap (λ k. take k d.value) (sym size)))

  -- Where a stamp names one write only, copies of a register that merge the same registers, in any
  -- order and any number of times, end equal in the sense of `cauchy_lww_equals`, with one stamp.
  pub lww_converges :
      (a : LwwRegister) (xs ys : List LwwRegister)
      → IsWritten a
      → AllStates registers xs
      → AllStates registers ys
      → SameStates registers xs ys
      → (c : LwwRegister) × (d : LwwRegister) × (deliver registers a xs ≡ some c)
        × (deliver registers a ys ≡ some d)
        × (equals (some c) (some d) ≡ true)
        × (stamp c ≡ stamp d)
  lww_converges a xs ys ha hx hy same =
      let (c, d, run, run', seen, hc, hd) =
        deliver_converges registers a a xs ys ha ha refl hx hy same in
      (c, d, run, run', same_stamp-equals c d hc hd seen, seen)
