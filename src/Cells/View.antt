-- ===== src/Cells/View.antt =====
-- What an array of counts makes observable, and the join of two observations.
use cauchy.Prelude.{ℕ, ◌≡◌, max, List, arith, fun_ext, ap₂}
use cauchy.Cells.{at}
use cauchy.Convergence.{Semilattice}

-- The count of each node, and the number of active nodes.
abbrev pub View : Type 0
View = (ℕ → ℕ) × ℕ

View_ext : (f g : ℕ → ℕ) (n m : ℕ) → ((i : ℕ) → f i ≡ g i) → n ≡ m → ◌≡◌ {A = View} (f, n) (g, m)
View_ext f g n m e h = ap₂ {C = View} (λ k p. (k, p)) (fun_ext e) h

-- Node by node, the larger count; the larger number of nodes.
abbrev pub join_views : View → View → View
join_views (f, n) (g, m) = (λ i. max (f i) (g i), max n m)

pub join_views_comm : (u v : View) → join_views u v ≡ join_views v u
join_views_comm u v = View_ext _ _ _ _ (λ i. omega arith) (omega arith)

pub join_views_assoc :
    (u v w : View) → join_views (join_views u v) w ≡ join_views u (join_views v w)
join_views_assoc u v w = View_ext _ _ _ _ (λ i. omega arith) (omega arith)

pub join_views_idem : (v : View) → join_views v v ≡ v
join_views_idem v = View_ext _ _ _ _ (λ i. omega arith) (omega arith)

abbrev pub view_lattice : Semilattice View
view_lattice = record {
  join = join_views;
  join_comm = join_views_comm;
  join_assoc = join_views_assoc;
  join_idem = join_views_idem;
}

abbrev pub view_cells : List ℕ → ℕ → View
view_cells xs n = (at xs, n)

pub view_cells-eq :
    (xs : List ℕ) (n : ℕ) (f : ℕ → ℕ) (m : ℕ)
    → ((i : ℕ) → at xs i ≡ f i)
    → n ≡ m
    → view_cells xs n ≡ (f, m)
view_cells-eq xs n f m e h = View_ext (at xs) f n m e h
