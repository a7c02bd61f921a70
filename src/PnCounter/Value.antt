-- ===== src/PnCounter/Value.antt =====
-- What updates do to the value of a PN-counter, and that they keep it well formed.
use cauchy.Prelude.{ℕ, ◌+◌, ◌^◌, ◌<◌, ◌≡◌, ap, ap₂, Option, none, some, arith, lt→ltb}
use cauchy.Prelude.Int.{ℤ, pos, negsuc, ◌+ℤ◌, ◌-ℤ◌, pos_part, neg_part, int_laws}
use cauchy.GCounter
use cauchy.GCounter.{GCounter}
use cauchy.GCounter.Value.{
  value-add, add_lem, init-IsValid, add-IsValid, increment-add, merge-IsValid,
}
use cauchy.PnCounter.{
  PnCounter, IsValid, IsValidPtr, held, init, create, copy, clone, increment, decrement, add,
  signed64, value, positive, negative, merge,
}

signed64_small : (w : ℕ) → w < 2 ^ 63 → signed64 w ≡ pos w
signed64_small w h = rw (lt→ltb w (2 ^ 63) h)

-- Where neither sum is so large that it reads as negative, the value is their exact difference.
value-parts :
    (pn : PnCounter)
    → positive (some pn) < 2 ^ 63
    → negative (some pn) < 2 ^ 63
    → value (some pn) ≡ pos (positive (some pn)) -ℤ pos (negative (some pn))
unfolding value positive negative
value-parts pn hp hn =
    ap₂ ◌-ℤ◌ (signed64_small (GCounter.value (some pn.positive)) hp)
      (signed64_small (GCounter.value (some pn.negative)) hn)

-- The two sums after an addition: the one that `delta` belongs to has grown by its size.
add-parts :
    (pn : PnCounter) (i : ℕ) (delta : ℤ)
    → IsValid pn
    → i < pn.positive.num_nodes
    → i < pn.negative.num_nodes
    → positive (some pn) + pos_part delta < 2 ^ 63
    → negative (some pn) + neg_part delta < 2 ^ 63
    → (c : PnCounter) × (add (some pn) i delta ≡ some c)
      × (positive (some c) ≡ positive (some pn) + pos_part delta)
      × (negative (some c) ≡ negative (some pn) + neg_part delta)
unfolding add positive negative
add-parts pn i (pos d) v hp hn fits fits' =
    let (c, run, _, grown) = add_lem pn.positive i d v.positive hp in
    (record pn { positive = c }, rw run, omega (arith, grown), omega arith)
add-parts pn i (negsuc d) v hp hn fits fits' =
    let (c, run, _, grown) = add_lem pn.negative i (d + 1) v.negative hn in
    (record pn { negative = c }, rw run, omega arith, omega (arith, grown))

-- Adding a signed `delta` for an active node adds exactly `delta` to the value of a well-formed
-- counter, while the two sums stay below 2 ^ 63; incrementing adds 1, and decrementing -1.
pub pn_value-add :
    (pn : PnCounter) (node_id : ℕ) (delta : ℤ)
    → IsValid pn
    → node_id < pn.positive.num_nodes
    → node_id < pn.negative.num_nodes
    → positive (some pn) + pos_part delta < 2 ^ 63
    → negative (some pn) + neg_part delta < 2 ^ 63
    → (value (add (some pn) node_id delta) ≡ value (some pn) +ℤ delta)
      × (increment (some pn) node_id ≡ add (some pn) node_id (pos 1))
      × (decrement (some pn) node_id ≡ add (some pn) node_id (negsuc 0))
pn_value-add pn i delta v hp hn fits fits' =
    let (c, run, up, down) = add-parts pn i delta v hp hn fits fits' in
    (
      rw
          (
            run,
            value-parts c (omega (arith, up)) (omega (arith, down)),
            value-parts pn (omega arith) (omega arith),
          )
          (omega (int_laws, up, down)),
      unfold increment add in
          ap (λ g. some (record pn { positive = held g pn.positive }))
            (value-add pn.positive i 1 v.positive).2,
      unfold decrement add in
          ap (λ g. some (record pn { negative = held g pn.negative }))
            (value-add pn.negative i 1 v.negative).2,
    )

held-IsValid :
    (q : Option GCounter) (old : GCounter)
    → GCounter.IsValidPtr q
    → GCounter.IsValid old
    → GCounter.IsValid (held q old)
held-IsValid none old h h' = h'
held-IsValid (some g) old h h' = h

-- An operation on each member that keeps it well formed keeps the pair so.
both :
    {up down : GCounter} (p q : Option GCounter)
    → GCounter.IsValid up
    → GCounter.IsValid down
    → GCounter.IsValidPtr p
    → GCounter.IsValidPtr q
    → IsValid (record { positive = held p up; negative = held q down })
both {up} {down} p q hu hd hp hq = record {
  positive = held-IsValid p up hp hu;
  negative = held-IsValid q down hq hd;
}

init-some : (pn : PnCounter) (n : ℕ) → IsValidPtr (init (some pn) n)
unfolding init GCounter.init
init-some pn n = record {
  positive = init-IsValid (some pn.positive) n;
  negative = init-IsValid (some pn.negative) n;
}

pn_init-IsValid : (p : Option PnCounter) (n : ℕ) → IsValidPtr (init p n)
pn_init-IsValid none n = unfold init in tt
pn_init-IsValid (some pn) n = init-some pn n

pn_clone-IsValid : (p q : Option PnCounter) → IsValidPtr q → IsValidPtr (clone p q)
unfolding clone GCounter.copy
pn_clone-IsValid p none h = tt
pn_clone-IsValid none (some pn) h = tt
pn_clone-IsValid (some b) (some pn) h = h

pn_copy-IsValid : (p q : Option PnCounter) → IsValidPtr p → IsValidPtr q → IsValidPtr (copy p q)
unfolding copy GCounter.copy
pn_copy-IsValid none q hp hq = tt
pn_copy-IsValid (some a) none hp hq = hp
pn_copy-IsValid (some a) (some b) hp hq = hq

pn_add-IsValid : (p : Option PnCounter) (i : ℕ) (d : ℤ) → IsValidPtr p → IsValidPtr (add p i d)
unfolding add
pn_add-IsValid none i d h = tt
pn_add-IsValid (some pn) i (pos d) h =
    both _ none h.positive h.negative (add-IsValid (some pn.positive) i d h.positive) tt
pn_add-IsValid (some pn) i (negsuc d) h =
    both none _ h.positive h.negative tt (add-IsValid (some pn.negative) i (d + 1) h.negative)

pn_increment-IsValid :
    (p : Option PnCounter) (i : ℕ)
    → IsValidPtr p
    → IsValidPtr (increment p i) × IsValidPtr (decrement p i)
unfolding increment decrement
pn_increment-IsValid none i h = (tt, tt)
pn_increment-IsValid (some pn) i h = (
  both (GCounter.increment (some pn.positive) i) none h.positive h.negative
      (rw (increment-add (some pn.positive) i) (add-IsValid (some pn.positive) i 1 h.positive)) tt,
  both none (GCounter.increment (some pn.negative) i) h.positive h.negative tt
      (rw (increment-add (some pn.negative) i) (add-IsValid (some pn.negative) i 1 h.negative)),
)

pn_merge-IsValid : (p q : Option PnCounter) → IsValidPtr p → IsValidPtr q → IsValidPtr (merge p q)
unfolding merge
pn_merge-IsValid none q hp hq = tt
pn_merge-IsValid (some a) none hp hq = hp
pn_merge-IsValid (some a) (some b) hp hq =
    both _ _ hp.positive hp.negative
      (merge-IsValid (some a.positive) (some b.positive) hp.positive hq.positive)
      (merge-IsValid (some a.negative) (some b.negative) hp.negative hq.negative)

-- Every function that writes a PN-counter leaves both its counters well formed, for NULL pointers
-- too: those that create one from anything, the others from well-formed counters.
pub pn_updates-IsValid :
    (p q : Option PnCounter) (n : ℕ) (delta : ℤ)
    → IsValidPtr (init p n)
      × IsValidPtr (create p n)
      × (IsValidPtr q → IsValidPtr (clone p q))
      × (IsValidPtr p
          → IsValidPtr q
          → IsValidPtr (copy p q)
            × IsValidPtr (increment p n)
            × IsValidPtr (decrement p n)
            × IsValidPtr (add p n delta)
            × IsValidPtr (merge p q))
unfolding create
pn_updates-IsValid p q n delta = (
  pn_init-IsValid p n,
  pn_init-IsValid p n,
  pn_clone-IsValid p q,
  λ hp hq. (
    pn_copy-IsValid p q hp hq,
    (pn_increment-IsValid p n hp).0,
    (pn_increment-IsValid p n hp).1,
    pn_add-IsValid p n delta hp,
    pn_merge-IsValid p q hp hq,
  ),
)
