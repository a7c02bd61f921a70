-- ===== src/Cells/Bounds.antt =====
-- Loops that write one cell in each round, and what they keep of `IsCells`.
use cauchy.Prelude.{
  Bool-cases, inl, inr, ap, ◌≢◌, ==_iff, ltb→le, ℕ, zero, suc, ◌+◌, ◌%◌, ◌≤◌, ◌<◌, ◌≡◌, refl, max,
  Bool, List, ltb, ◌==◌, length, set, replicate, loop, if◌then◌else◌, arith, length-set, get_or-set,
  array_ext, length-replicate, get_or-replicate,
}
use cauchy.Cells.{max_nodes, u64_mod, at, sum_cells, IsCells}

-- Round `i` of `body` turns cell `i` by `g i`, and leaves the other cells alone.
abbrev pub IsCellwise : (ℕ → List ℕ → List ℕ) → (ℕ → ℕ → ℕ) → Type 0
IsCellwise body g =
    (i : ℕ) (xs : List ℕ)
    → i < length xs
    → (length (body i xs) ≡ length xs)
      × ((j : ℕ) → at (body i xs) j ≡ (if j == i then g i (at xs j) else at xs j))

pub at-loop :
    (body : ℕ → List ℕ → List ℕ) (g : ℕ → ℕ → ℕ)
    → IsCellwise body g
    → (n : ℕ) (xs : List ℕ) → n ≤ length xs
    → (length (loop n body xs) ≡ length xs)
      × ((j : ℕ) → at (loop n body xs) j ≡ (if ltb j n then g j (at xs j) else at xs j))
unfolding loop
at-loop body g step zero xs h = (refl, λ j. ground arith)
at-loop body g step (suc n) xs h =
    let (size, cells) = at-loop body g step n xs (omega arith) in
    let (size', cells') = step n (loop n body xs) (omega arith) in
    (omega arith, λ j. ground (arith, cells j, cells' j))

-- A conditional write of cell `i` is a cellwise round.
pub guarded_set-IsCellwise :
    (test : ℕ → ℕ → Bool) (value : ℕ → ℕ)
    → IsCellwise
        (λ i xs. if test i (at xs i) then set xs i (value i) else xs)
        (λ i x. if test i x then value i else x)
guarded_set-IsCellwise test value i xs h = (
  ground (arith, length-set xs i (value i)),
  λ j. ground (arith, get_or-set xs i j (value i) 0 h),
)

pub fresh-IsCells : (n : ℕ) → n ≤ max_nodes → IsCells (replicate max_nodes 0) n
fresh-IsCells n h = record {
  width = length-replicate {A = ℕ} 64 0;
  active = h;
  fits = λ i. omega (arith, get_or-replicate {A = ℕ} 64 i 0);
  clear = λ i past. get_or-replicate {A = ℕ} 64 i 0;
}

pub set-IsCells :
    (xs : List ℕ) {n : ℕ} (i v : ℕ) → IsCells xs n → i < n → v < u64_mod → IsCells (set xs i v) n
set-IsCells xs i v c h small = record {
  width = omega (arith, length-set xs i v, c.width);
  active = c.active;
  fits = λ j. ground (arith, get_or-set xs i j v 0 (omega (arith, c.width, c.active)), c.fits j);
  clear = λ j past.
      ground (arith, get_or-set xs i j v 0 (omega (arith, c.width, c.active)), c.clear j past);
}

-- A cell-by-cell maximum of two arrays, whose active nodes are those of either.
pub max-IsCells :
    {xs ys zs : List ℕ} {n m : ℕ}
    → IsCells xs n
    → IsCells ys m
    → length zs ≡ length xs
    → ((j : ℕ) → at zs j ≡ max (at xs j) (at ys j))
    → IsCells zs (max n m)
max-IsCells c d size cells = record {
  width = omega (arith, c.width);
  active = omega (arith, c.active, d.active);
  fits = λ j. omega (arith, cells j, c.fits j, d.fits j);
  clear = λ j past. omega (arith, cells j, c.clear j (omega arith), d.clear j (omega arith));
}

pub cells_ext :
    {xs ys : List ℕ} {n m : ℕ}
    → IsCells xs n
    → IsCells ys m
    → ((i : ℕ) → at xs i ≡ at ys i)
    → xs ≡ ys
cells_ext {xs} {ys} c d e = array_ext xs ys 0 (omega (arith, c.width, d.width)) e

-- The sum without wrap-around.
unfoldable pub total : ℕ → (ℕ → ℕ) → ℕ
total zero f = 0
total (suc n) f = total n f + f n

pub sum_cells-total : (n : ℕ) (xs : List ℕ) → sum_cells n xs ≡ total n (at xs) % u64_mod
unfolding sum_cells total loop
sum_cells-total zero xs = refl
sum_cells-total (suc n) xs = omega (arith, sum_cells-total n xs)

pub total-le : (n : ℕ) (f g : ℕ → ℕ) → ((i : ℕ) → f i ≤ g i) → total n f ≤ total n g
unfolding total
total-le zero f g le = omega arith
total-le (suc n) f g le = omega (arith, total-le n f g le, le n)

pub total_longer : (n m : ℕ) (f : ℕ → ℕ) → n ≤ m → total n f ≤ total m f
unfolding total
total_longer zero zero f h = omega arith
total_longer (suc n) zero f h = elim h [ ]
total_longer n (suc m) f h = elim (Bool-cases (ltb m n)) [
  | inl above ↦ omega (arith, ap (λ k. total k f) (let e : n ≡ suc m = ground arith in e))
  | inr within ↦ omega (arith, total_longer n m f (ground arith))
]

pub total_congr : (n : ℕ) (f g : ℕ → ℕ) → ((i : ℕ) → i < n → f i ≡ g i) → total n f ≡ total n g
unfolding total
total_congr zero f g e = refl
total_congr (suc n) f g e =
    omega (arith, total_congr n f g (λ i lt. e i (omega arith)), e n (omega arith))

-- A change of one cell changes the sum by as much.
pub total_update :
    (n i : ℕ) (f g : ℕ → ℕ)
    → i < n
    → ((j : ℕ) → j ≢ i → g j ≡ f j)
    → total n g + f i ≡ total n f + g i
unfolding total
total_update zero i f g h e = elim h [ ]
total_update (suc n) i f g h e = elim (Bool-cases (n == i)) [
  | inl last ↦
      let n_eq = (==_iff n i).0 last in
      omega (arith, total_congr n g f (λ j lt. e j (omega arith)), ap f n_eq, ap g n_eq)
  | inr more ↦
      let n_ne : n ≢ i = ground arith in
      omega (arith, e n n_ne, total_update n i f g (omega arith) e)
]

pub total_add : (n : ℕ) (f g : ℕ → ℕ) → total n (λ i. f i + g i) ≡ total n f + total n g
unfolding total
total_add zero f g = refl
total_add (suc n) f g = omega (arith, total_add n f g)

-- Cells past the first `n` that are zero add nothing.
pub total_clear :
    (n k : ℕ) (f : ℕ → ℕ) → n ≤ k → ((i : ℕ) → n ≤ i → f i ≡ 0) → total k f ≡ total n f
unfolding total
total_clear zero zero f h z = refl
total_clear (suc n) zero f h z = elim h [ ]
total_clear n (suc k) f h z = elim (Bool-cases (ltb k n)) [
  | inl above ↦ ap (λ m. total m f) (let e : suc k ≡ n = ground arith in e)
  | inr within ↦ omega (arith, z k (ltb→le k n within), total_clear n k f (ltb→le k n within) z)
]
