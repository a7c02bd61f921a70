-- ===== src/PnCounter.antt =====
-- include/cauchy/crdt/pn_counter.h and src/crdt/pn_counter.c: a counter of increments and a counter
-- of decrements. A pointer that may be NULL is an `Option`.
pub mod Value
pub mod Merge
pub mod Wire
use cauchy.Prelude.{
  ℕ, ◌+◌, ◌-◌, ◌^◌, ◌<◌, Bool, true, false, ◌&&◌, Option, none, some, ltb, if◌then◌else◌,
}
use cauchy.Prelude.Int.{ℤ, pos, negsuc, ◌-ℤ◌}
use cauchy.GCounter
use cauchy.GCounter.{GCounter}

-- `cauchy_pncounter_t`
pub record PnCounter : Type 0 where
  pub positive : GCounter
  pub negative : GCounter

pub record IsValid (pn : PnCounter) : Type 0 where
  pub positive : GCounter.IsValid pn.positive
  pub negative : GCounter.IsValid pn.negative

abbrev pub IsValidPtr : Option PnCounter → Type 0
IsValidPtr none = Unit
IsValidPtr (some pn) = IsValid pn

-- What a member holds after a call that was given its address.
abbrev pub held : Option GCounter → GCounter → GCounter
held none old = old
held (some new) old = new

unfoldable pub init : Option PnCounter → ℕ → Option PnCounter
init none num_nodes = none
init (some pn) num_nodes = some (record {
  positive = held (GCounter.init (some pn.positive) num_nodes) pn.positive;
  negative = held (GCounter.init (some pn.negative) num_nodes) pn.negative;
})

-- The argument is what `cauchy_aligned_alloc` returned, with whatever the block held.
unfoldable pub create : Option PnCounter → ℕ → Option PnCounter
unfolding init
create block num_nodes = init block num_nodes

unfoldable pub increment : Option PnCounter → ℕ → Option PnCounter
increment none node_id = none
increment (some pn) node_id =
    some (record pn { positive = held (GCounter.increment (some pn.positive) node_id) pn.positive })

unfoldable pub decrement : Option PnCounter → ℕ → Option PnCounter
decrement none node_id = none
decrement (some pn) node_id =
    some (record pn { negative = held (GCounter.increment (some pn.negative) node_id) pn.negative })

-- `delta` is an `i64`. At the least `i64` the C expression `-delta` is undefined; here it is what
-- wrapping arithmetic gives.
unfoldable pub add : Option PnCounter → ℕ → ℤ → Option PnCounter
add none node_id delta = none
add (some pn) node_id (pos delta) =
    some (record pn { positive = held (GCounter.add (some pn.positive) node_id delta) pn.positive })
add (some pn) node_id (negsuc delta) = some (record pn {
  negative = held (GCounter.add (some pn.negative) node_id (delta + 1)) pn.negative;
})

-- `(i64)w` for a `u64` w
abbrev pub signed64 : ℕ → ℤ
signed64 w = if ltb w (2 ^ 63) then pos w else negsuc (2 ^ 64 - w - 1)

-- The difference is exact; one that is no `i64` is undefined in C.
unfoldable pub value : Option PnCounter → ℤ
value none = pos 0
value (some pn) =
    signed64 (GCounter.value (some pn.positive)) -ℤ signed64 (GCounter.value (some pn.negative))

-- `cauchy_pncounter_positive`, `cauchy_pncounter_negative`
unfoldable pub positive : Option PnCounter → ℕ
positive none = 0
positive (some pn) = GCounter.value (some pn.positive)

unfoldable pub negative : Option PnCounter → ℕ
negative none = 0
negative (some pn) = GCounter.value (some pn.negative)

unfoldable pub merge : Option PnCounter → Option PnCounter → Option PnCounter
merge (some dst) (some src) = some (record {
  positive = held (GCounter.merge (some dst.positive) (some src.positive)) dst.positive;
  negative = held (GCounter.merge (some dst.negative) (some src.negative)) dst.negative;
})
merge dst _ = dst

unfoldable pub equals : Option PnCounter → Option PnCounter → Bool
equals none none = true
equals none (some b) = false
equals (some a) none = false
equals (some a) (some b) =
    GCounter.equals (some a.positive) (some b.positive)
    && GCounter.equals (some a.negative) (some b.negative)

unfoldable pub copy : Option PnCounter → Option PnCounter → Option PnCounter
copy (some dst) (some src) = some (record {
  positive = held (GCounter.copy (some dst.positive) (some src.positive)) dst.positive;
  negative = held (GCounter.copy (some dst.negative) (some src.negative)) dst.negative;
})
copy dst _ = dst

unfoldable pub clone : Option PnCounter → Option PnCounter → Option PnCounter
unfolding create copy
clone block none = none
clone block (some pn) = copy (create block pn.positive.num_nodes) (some pn)
