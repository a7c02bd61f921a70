-- ===== src/Tests/Claims.antt =====
-- Two threads that ask for a hazard record at the same time, and the theorem about them.
use cauchy.Prelude.{ℕ, ◌≤◌, ◌≡◌, ◌≢◌, refl, true, false, List, [], ◌∷◌, arith, update}
use cauchy.Atomic.{fetch_add_u32}
use cauchy.Pool.{write}
use cauchy.Pool.Blocks.{IsChain, copies}
use cauchy.Hazard.Claims.{
  Shared, at_place, outside, scanning, holding, linking, owning, Reach, created, further, enter,
  make, load, link, retry,
}
use cauchy.Hazard.Claims.Progress.{Alone, claims_progress}
use cauchy.Hazard.Claims.Invariant.{claims_exclusive}

-- Both make a record; the second one finds that the head has changed.
abbrev fresh : Shared
fresh = record {
  head = 0;
  record_count = 0;
  next = λ rec. 0;
  active = λ rec. false;
  made = [];
  threads = λ t. outside;
}

abbrev scanned : Shared
scanned = at_place (at_place fresh 0 (scanning 0)) 1 (scanning 0)

abbrev one_made : Shared
one_made = record (at_place scanned 0 (holding 100)) {
  next = write scanned.next 100 0;
  active = update scanned.active 100 true;
  made = 100 ∷ scanned.made;
}

abbrev both_made : Shared
both_made = record (at_place one_made 1 (holding 200)) {
  next = write one_made.next 200 0;
  active = update one_made.active 200 true;
  made = 200 ∷ one_made.made;
}

abbrev aim : ℕ → ℕ → Shared → Shared
aim t rec s = record (at_place s t (linking rec s.head)) { next = write s.next rec s.head }

abbrev joined : ℕ → ℕ → Shared → Shared
joined t rec s = record (at_place s t (owning rec)) {
  head = rec;
  record_count = fetch_add_u32 s.record_count 1;
}

abbrev first_in : Shared
first_in = joined 0 100 (aim 1 200 (aim 0 100 both_made))

abbrev again : Shared
again = aim 1 200 (at_place first_in 1 (holding 200))

first-Reach : Reach first_in
first-Reach =
    let s1 = further (further (created (λ rec. 0) (λ rec. false)) (enter 0 refl)) (enter 1 refl) in
    let s2 = further s1 (make 0 100 refl (λ e. absurd (omega (arith, e))) (omega arith)) in
    let s3 = further s2 (make 1 200 refl (λ e. absurd (omega (arith, e))) (omega arith)) in
    let s4 = further (further s3 (load 0 100 refl)) (load 1 200 refl) in
    further s4 (link 0 100 0 refl refl)

both-Reach : Reach (joined 1 200 again)
both-Reach =
    let s1 = further first-Reach (retry 1 200 0 refl (λ e. absurd (omega (arith, e)))) in
    further (further s1 (load 1 200 refl)) (link 1 200 100 refl refl)

claims_exclusive_example :
    (xs : List ℕ) × (◌≢◌ {A = ℕ} 100 200)
    × ((joined 1 200 again).active 100 ≡ true)
    × ((joined 1 200 again).active 200 ≡ true)
    × IsChain (joined 1 200 again).next 200 xs
    × (copies 100 xs ≡ 1)
    × (copies 200 xs ≡ 1)
    × ((x : ℕ) → copies x xs ≤ 1)
claims_exclusive_example =
    claims_exclusive 0 1 100 200 both-Reach (λ e. absurd (omega (arith, e))) refl refl

-- The second thread is about to put its record in front of an empty list.
claims_progress_example :
    (s' : Shared) × (rec : ℕ) × Alone 1 first_in s' × (s'.threads 1 ≡ owning rec)
claims_progress_example =
    claims_progress 1 300 first-Reach (λ e. absurd (omega (arith, e))) (omega arith)
