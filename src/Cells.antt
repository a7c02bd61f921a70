-- ===== src/Cells.antt =====
-- The fixed arrays of 64-bit counts that src/core/vclock.c and src/crdt/g_counter.c both keep:
-- `u64 x[CAUCHY_MAX_NODES]` beside a number of active nodes, and the loops over them.
pub mod Bounds
pub mod Order
pub mod View
pub mod Wire
use cauchy.Prelude.{
  ℕ, ◌+◌, ◌*◌, ◌%◌, ◌^◌, ◌≤◌, ◌<◌, ◌≡◌, max, Bool, true, false, ◌&&◌, not, List, ltb, length,
  get_or, set, loop, if◌then◌else◌,
}
use cauchy.Types.{Causality, happens_before, concurrent, happens_after, equal}

-- `CAUCHY_MAX_NODES`
abbrev pub max_nodes : ℕ
max_nodes = 64

-- What a `u64` or a `usize` holds.
abbrev pub u64_mod : ℕ
u64_mod = 2 ^ 64

-- `xs[i]`; the development shows that no index is out of range.
abbrev pub at : List ℕ → ℕ → ℕ
at xs i = get_or xs i 0

-- `(i < n) ? xs[i] : 0`
abbrev pub cell : List ℕ → ℕ → ℕ → ℕ
cell xs n i = if ltb i n then at xs i else 0

-- `for (i < n) sum += xs[i]`, in 64 bits
unfoldable pub sum_cells : ℕ → List ℕ → ℕ
sum_cells n xs = loop n (λ i sum. (sum + at xs i) % u64_mod) 0

-- one round of the comparison loop, over (a_less, a_greater)
abbrev pub mark : (ℕ → ℕ) → (ℕ → ℕ) → ℕ → Bool × Bool → Bool × Bool
mark f g i (less, greater) =
    (if ltb (f i) (g i) then true else less, if ltb (g i) (f i) then true else greater)

abbrev pub verdict : Bool × Bool → Causality
verdict (less, greater) =
    if not less && not greater
    then equal
    else if less && not greater
    then happens_before
    else if not less && greater
    then happens_after
    else concurrent

-- The comparison of two arrays with `n` and `m` active cells.
unfoldable pub causality : List ℕ → ℕ → List ℕ → ℕ → Causality
causality xs n ys m = verdict (loop (max n m) (mark (cell xs n) (cell ys m)) (false, false))

-- What every operation keeps: the array has its size, the active nodes fit in it, each count is a
-- 64-bit number, and the cells past the active ones are clear.
pub record IsCells (xs : List ℕ) (n : ℕ) : Type 0 where
  pub width : length xs ≡ max_nodes
  pub active : n ≤ max_nodes
  pub fits : (i : ℕ) → at xs i < u64_mod
  pub clear : (i : ℕ) → n ≤ i → at xs i ≡ 0
