-- ===== src/Vclock/Updates.antt =====
-- The operations that write a clock keep it well formed; sums and minima.
use cauchy.Prelude.{
  ℕ, ◌<◌, ◌≡◌, refl, min as min_ℕ, true, Option, none, some, List, ltb, leb, ◌==◌, get_or-replicate,
  set as set_cell, loop, if◌then◌else◌, arith, length, Bool-cases, inl, inr, ◌↔◌, all_below_iff,
  leb→le, leb→lt,
}
use cauchy.Cells.{max_nodes, u64_mod, at}
use cauchy.Cells.Bounds.{at-loop, guarded_set-IsCellwise, fresh-IsCells, set-IsCells}
use cauchy.Vclock.{
  Vclock, IsValid, init, create, copy, clone, increment, get, set, merge, min, lower_cell, is_empty,
  equals,
}
use cauchy.Bytes.{Layout}
use cauchy.Vclock.Wire.{deserialize, deserialize_total}
use cauchy.Vclock.Merge.{merge-view}
use cauchy.Vclock.Compare.{equals_iff}

-- What a pointer leads to, if it is not NULL, is well formed.
abbrev pub IsValidPtr : Option Vclock → Type 0
IsValidPtr none = Unit
IsValidPtr (some vc) = IsValid vc

init-IsValid : (vc : Option Vclock) (n : ℕ) → IsValidPtr (init vc n)
unfolding init
init-IsValid none n = tt
init-IsValid (some vc) n = elim (Bool-cases (leb n max_nodes)) [
  | inl few ↦ rw few (fresh-IsCells n (leb→le n max_nodes few))
  | inr many ↦ rw many (fresh-IsCells max_nodes (omega arith))
]

set-IsValid :
    (vc : Vclock) (i v : ℕ)
    → IsValid vc
    → v < u64_mod
    → IsValidPtr (
        if leb vc.num_nodes i
        then some vc
        else some (record vc { entries = set_cell vc.entries i v }))
set-IsValid vc i v h small = elim (Bool-cases (leb vc.num_nodes i)) [
  | inl out ↦ rw out h
  | inr in_range ↦ rw in_range (set-IsCells vc.entries i v h (leb→lt vc.num_nodes i in_range) small)
]

at-min :
    {a b : Vclock}
    → IsValid a
    → IsValid b
    → let cells = loop (min_ℕ a.num_nodes b.num_nodes) (lower_cell b.entries) a.entries in
      (length cells ≡ length a.entries)
      × ((j : ℕ)
          → at cells j ≡ (
              if ltb j (min_ℕ a.num_nodes b.num_nodes)
              then min_ℕ (at a.entries j) (at b.entries j)
              else at a.entries j))
at-min {a} {b} va vb =
    let (size, cells) =
      at-loop (lower_cell b.entries) (λ i x. if ltb (at b.entries i) x then at b.entries i else x)
        (guarded_set-IsCellwise (λ i x. ltb (at b.entries i) x) (at b.entries))
        (min_ℕ a.num_nodes b.num_nodes) a.entries (omega (arith, va.width, va.active, vb.active)) in
    (size, λ j. ground (arith, cells j))

min-IsValid : (a b : Vclock) → IsValid a → IsValid b → IsValidPtr (min (some a) (some b))
unfolding min
min-IsValid a b va vb =
    let (size, cells) = at-min va vb in
    record {
      width = omega (arith, size, va.width);
      active = va.active;
      fits = λ j. ground (arith, cells j, va.fits j, vb.fits j);
      clear = λ j past. ground (arith, cells j, va.clear j past);
    }

copy-IsValid : (p q : Option Vclock) → IsValidPtr p → IsValidPtr q → IsValidPtr (copy p q)
unfolding copy
copy-IsValid none q hp hq = tt
copy-IsValid (some a) none hp hq = hp
copy-IsValid (some a) (some b) hp hq = hq

clone-IsValid : (p q : Option Vclock) → IsValidPtr q → IsValidPtr (clone p q)
unfolding clone
clone-IsValid p none h = tt
clone-IsValid none (some vc) h = tt
clone-IsValid (some b) (some vc) h = h

pub increment-IsValid : (p : Option Vclock) (i : ℕ) → IsValidPtr p → IsValidPtr (increment p i)
unfolding increment
increment-IsValid none i h = tt
increment-IsValid (some vc) i h = set-IsValid vc i _ h (omega arith)

set_ptr-IsValid :
    (p : Option Vclock) (i v : ℕ) → v < u64_mod → IsValidPtr p → IsValidPtr (set p i v)
unfolding set
set_ptr-IsValid none i v small h = tt
set_ptr-IsValid (some vc) i v small h = set-IsValid vc i v h small

merge-IsValid : (p q : Option Vclock) → IsValidPtr p → IsValidPtr q → IsValidPtr (merge p q)
merge-IsValid none q hp hq = unfold merge in tt
merge-IsValid (some a) none hp hq = unfold merge in hp
merge-IsValid (some a) (some b) hp hq =
    let (c, run, valid, _) = merge-view a b hp hq in rw run valid

min_ptr-IsValid : (p q : Option Vclock) → IsValidPtr p → IsValidPtr q → IsValidPtr (min p q)
min_ptr-IsValid none q hp hq = unfold min in tt
min_ptr-IsValid (some a) none hp hq = unfold min in hp
min_ptr-IsValid (some a) (some b) hp hq = min-IsValid a b hp hq

deserialize-IsValid :
    (layout : Layout) (p : Option Vclock) (buffer : Option (List ℕ)) (size : ℕ)
    → IsValidPtr p
    → IsValidPtr (deserialize layout p buffer size).1
deserialize-IsValid layout none buffer size h = unfold deserialize in tt
deserialize-IsValid layout (some vc) none size h = unfold deserialize in h
deserialize-IsValid layout (some vc) (some buffer) size h =
    elim (deserialize_total layout vc buffer size) [
      | inl (refused, _) ↦ rw refused h
      | inr (new, run, _, valid) ↦ rw run valid
    ]

-- Every function that writes a clock leaves it well formed, for NULL pointers too: those that
-- create one from anything, the others from well-formed clocks and 64-bit values, and
-- deserialization whatever the buffer holds and whatever its declared size.
pub updates-IsValid :
    (layout : Layout) (p q : Option Vclock) (buffer : Option (List ℕ)) (n size value : ℕ)
    → value < u64_mod
    → IsValidPtr (init p n)
      × IsValidPtr (create p n)
      × (IsValidPtr q → IsValidPtr (clone p q))
      × (IsValidPtr p
          → IsValidPtr q
          → IsValidPtr (copy p q)
            × IsValidPtr (increment p n)
            × IsValidPtr (set p n value)
            × IsValidPtr (merge p q)
            × IsValidPtr (min p q)
            × IsValidPtr (deserialize layout p buffer size).1)
unfolding create
updates-IsValid layout p q buffer n size value small = (
  init-IsValid p n,
  init-IsValid p n,
  clone-IsValid p q,
  λ hp hq. (
    copy-IsValid p q hp hq,
    increment-IsValid p n hp,
    set_ptr-IsValid p n value small hp,
    merge-IsValid p q hp hq,
    min_ptr-IsValid p q hp hq,
    deserialize-IsValid layout p buffer size hp,
  ),
)

-- `cauchy_vclock_min` lowers the counts of the nodes that are active in both well-formed clocks to
-- the smaller one. It leaves the counts of the nodes that only the first one knows as they are,
-- although the comparison takes those for zero in the second.
pub min-get :
    (a b : Vclock)
    → IsValid a
    → IsValid b
    → (c : Vclock) × (min (some a) (some b) ≡ some c)
      × (c.num_nodes ≡ a.num_nodes)
      × ((i : ℕ)
          → get (some c) i ≡ (
              if ltb i b.num_nodes
              then min_ℕ (get (some a) i) (get (some b) i)
              else get (some a) i))
unfolding min get
min-get a b va vb =
    let (size, cells) = at-min va vb in (_, refl, refl, λ i. ground (arith, cells i))

init-some :
    (block : Vclock) (n : ℕ)
    → (vc : Vclock) × (init (some block) n ≡ some vc) × ((i : ℕ) → get (some vc) i ≡ 0)
unfolding init get
init-some block n = (_, refl, λ i. ground (arith, get_or-replicate {A = ℕ} max_nodes i 0))

is_empty-get : (vc : Vclock) → (is_empty (some vc) ≡ true) ↔ ((i : ℕ) → get (some vc) i ≡ 0)
unfolding is_empty get
is_empty-get vc =
    let zeros = all_below_iff vc.num_nodes (λ i. at vc.entries i == 0) in
    (λ h i. ground (arith, zeros.0 h i), λ h. zeros.1 (λ i lt. ground (arith, h i)))

-- A clock is empty exactly when it compares as equal to a new clock.
pub is_empty_iff :
    (vc block : Vclock) (n : ℕ)
    → (is_empty (some vc) ≡ true) ↔ (equals (some vc) (init (some block) n) ≡ true)
is_empty_iff vc block n =
    let (new, run, clear) = init-some block n in
    rw run (
      λ h. (equals_iff vc new).1 (λ i. omega (arith, (is_empty-get vc).0 h i, clear i)),
      λ h. (is_empty-get vc).1 (λ i. omega (arith, (equals_iff vc new).0 h i, clear i)),
    )
