-- ===== src/LwwRegister/Write.antt =====
-- Writing and reading a register.
use cauchy.Prelude.{
  ℕ, ◌≤◌, ◌<◌, ◌≡◌, refl, ◌∙◌, true, false, Option, none, some, List, ltb, length, take, drop,
  write_start, take-append_eq, length-write, length-take, length-replicate, lt→ltb, le→ltb, ltb→le,
  arith, Bool-cases, inl, inr,
}
use cauchy.Types.{ok, err_full}
use cauchy.Cells.{u64_mod}
use cauchy.LwwRegister.{
  LwwRegister, IsValidPtr, content, later, max_value_size, store, init, create, set, copy, merge,
  clone,
}

length-store :
    (old : List ℕ) (value : Option (List ℕ)) (size : ℕ)
    → size ≤ length old
    → length (store old value size) ≡ length old
length-store old none size h = refl
length-store old (some bytes) size h = elim (Bool-cases (ltb 0 size)) [
  | inl any ↦ rw any (length-write old 0 (take size bytes) (omega (arith, length-take size bytes)))
  | inr empty ↦ rw empty
]

-- The bytes that a write of `size` bytes leaves in front.
pub take-store :
    (old bytes : List ℕ) (size : ℕ)
    → size ≤ length bytes
    → take size (store old (some bytes) size) ≡ take size bytes
take-store old bytes size h = elim (Bool-cases (ltb 0 size)) [
  | inl any ↦
      rw (any, write_start old (take size bytes))
        (take-append_eq size (take size bytes) (drop (length (take size bytes)) old)
          (omega (arith, length-take size bytes)))
  | inr empty ↦ let e : size ≡ 0 = ground arith in rw (empty, e)
]

-- A write of more than 256 bytes is refused as too large. A later stamp than the register's is
-- taken over with the size, and the register then holds the given bytes, or, for a NULL value, what
-- its first bytes were before. An earlier or equal stamp changes nothing and is reported as `ok`.
pub lww_set :
    (reg : LwwRegister) (bytes : List ℕ) (size ts node : ℕ)
    → size ≤ length bytes
    → (max_value_size < size → set (some reg) (some bytes) size ts node ≡ (err_full, some reg))
      × (size ≤ max_value_size
          → later ts node reg ≡ false
          → set (some reg) (some bytes) size ts node ≡ (ok, some reg))
      × (size ≤ max_value_size
          → later ts node reg ≡ true
          → (new old : LwwRegister) × (set (some reg) (some bytes) size ts node ≡ (ok, some new))
            × (set (some reg) none size ts node ≡ (ok, some old))
            × (new.timestamp ≡ ts)
            × (new.node_id ≡ node)
            × (content new ≡ take size bytes)
            × (old.timestamp ≡ ts)
            × (old.node_id ≡ node)
            × (content old ≡ take size reg.value))
unfolding set
lww_set reg bytes size ts node h = (
  λ large. rw (lt→ltb max_value_size size large),
  λ small stale. rw (le→ltb max_value_size size small, stale),
  λ small newer.
      let full = le→ltb max_value_size size small in
      (
        record {
          value = store reg.value (some bytes) size;
          value_size = size;
          timestamp = ts;
          node_id = node;
        },
        record { value = reg.value; value_size = size; timestamp = ts; node_id = node },
        rw (full, newer),
        rw (full, newer),
        refl,
        refl,
        take-store reg.value bytes size h,
        refl,
        refl,
        refl,
      ),
)

lww_set-IsValid :
    (p : Option LwwRegister) (value : Option (List ℕ)) (size ts node : ℕ)
    → ts < u64_mod
    → node < u64_mod
    → IsValidPtr p
    → IsValidPtr (set p value size ts node).1
unfolding set
lww_set-IsValid none value size ts node ht hn v = tt
lww_set-IsValid (some reg) value size ts node ht hn v =
    elim (Bool-cases (ltb max_value_size size)) [
      | inl large ↦ rw large v
      | inr small ↦ elim (Bool-cases (later ts node reg)) [
        | inl newer ↦
            rw (small, newer)
              (record {
                width =
                    length-store reg.value value size
                      (omega (arith, ltb→le max_value_size size small, v.width))
                    ∙ v.width;
                used = ltb→le max_value_size size small;
                timestamp_fits = ht;
                node_fits = hn;
              })
        | inr stale ↦ rw (small, stale) v
      ]
    ]

lww_init-IsValid : (p : Option LwwRegister) → IsValidPtr (init p)
unfolding init
lww_init-IsValid none = tt
lww_init-IsValid (some reg) = record {
  width = length-replicate {A = ℕ} max_value_size 0;
  used = omega arith;
  timestamp_fits = omega arith;
  node_fits = omega arith;
}

lww_copies-IsValid :
    (p q : Option LwwRegister)
    → IsValidPtr p
    → IsValidPtr q
    → IsValidPtr (copy p q) × IsValidPtr (merge p q)
unfolding copy merge
lww_copies-IsValid none q hp hq = (tt, tt)
lww_copies-IsValid (some a) none hp hq = (hp, hp)
lww_copies-IsValid (some a) (some b) hp hq = elim (Bool-cases (later b.timestamp b.node_id a)) [
  | inl newer ↦ (hq, rw newer hq)
  | inr stale ↦ (hq, rw stale hp)
]

lww_clone-IsValid : (p q : Option LwwRegister) → IsValidPtr q → IsValidPtr (clone p q)
unfolding clone
lww_clone-IsValid p none h = tt
lww_clone-IsValid none (some reg) h = tt
lww_clone-IsValid (some b) (some reg) h = h

-- Setting, merging, copying, cloning and initializing leave registers well formed, for NULL pointers
-- too: at most 256 bytes count, in an array of 256.
pub lww_updates-IsValid :
    (p q : Option LwwRegister) (value : Option (List ℕ)) (size ts node : ℕ)
    → ts < u64_mod
    → node < u64_mod
    → IsValidPtr (init p)
      × IsValidPtr (create p)
      × (IsValidPtr q → IsValidPtr (clone p q))
      × (IsValidPtr p
          → IsValidPtr q
          → IsValidPtr (set p value size ts node).1
            × IsValidPtr (copy p q)
            × IsValidPtr (merge p q))
unfolding create
lww_updates-IsValid p q value size ts node ht hn = (
  lww_init-IsValid p,
  lww_init-IsValid p,
  lww_clone-IsValid p q,
  λ hp hq. (
    lww_set-IsValid p value size ts node ht hn hp,
    (lww_copies-IsValid p q hp hq).0,
    (lww_copies-IsValid p q hp hq).1,
  ),
)
