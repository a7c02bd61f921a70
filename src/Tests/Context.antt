-- ===== src/Tests/Context.antt =====
-- Runs of the functions on contexts, and the theorems about them at concrete contexts.
use cauchy.Prelude.{ℕ, ◌+◌, ◌<◌, ◌≡◌, refl, max, true, replicate, Option, some, [], ◌∷◌, arith}
use cauchy.Prelude.Int.{negsuc}
use cauchy.Types.{uid_create, uid_compare, happens_before}
use cauchy.Cells.{u64_mod}
use cauchy.Vclock
use cauchy.Vclock.{Vclock}
use cauchy.Context.{Context, create, gen_uid, get_timestamp, tick, merge_clock}
use cauchy.Context.Order.{IsNode, generate, work, rest, next, uids_increase, merge_clock_after}
use cauchy.Context.Repeats.{uid_repeats}
use cauchy.Context.Lifecycle.{Heap, Node, create_node, destroy_node}
use cauchy.Pool.Blocks.{copies}
use cauchy.Context.Lifecycle.Balance.{context_memory}
use cauchy.Tests.Vclock.{clock, clock-IsValid}

-- Node 1 of three, after `n` events of its own.
abbrev ctx : ℕ → ℕ → Context
ctx n k = record { node_id = 1; local_clock = clock 4 n 2; op_counter = k }

ctx-IsNode : IsNode (ctx 0 0)
ctx-IsNode = record {
  clock = clock-IsValid 4 0 2 (omega arith) (omega arith) (omega arith);
  active = omega arith;
}

first_uid : gen_uid (some (ctx 0 0)) ≡ (uid_create 1 1, some (ctx 1 1))
unfolding gen_uid Vclock.increment Vclock.get
first_uid = refl

tick_run : tick (some (ctx 1 1)) ≡ some (ctx 2 1)
unfolding tick Vclock.increment
tick_run = refl

second_uid : gen_uid (some (ctx 2 1)) ≡ (uid_create 1 3, some (ctx 3 2))
unfolding gen_uid Vclock.increment Vclock.get
second_uid = refl

stamp_fits : get_timestamp (some (ctx 0 0)) + 1 < u64_mod
unfolding get_timestamp Vclock.get
stamp_fits = omega arith

stamp_fits_then : get_timestamp (some (ctx 1 1)) + 1 < u64_mod
unfolding get_timestamp Vclock.get
stamp_fits_then = omega arith

stamp_fits_late : get_timestamp (some (ctx 2 1)) + 1 < u64_mod
unfolding get_timestamp Vclock.get
stamp_fits_late = omega arith

uids_increase_example :
    (uid_compare (uid_create 1 1) (uid_create 1 3) ≡ negsuc 0)
    × ((uid_create 1 1).node_id ≡ 1)
    × ((uid_create 1 3).node_id ≡ 1)
uids_increase_example =
    uids_increase (ctx 0 0) (ctx 1 1) (ctx 2 1) (ctx 3 2) (uid_create 1 1) (uid_create 1 3)
      ctx-IsNode stamp_fits first_uid
      (next (work (ctx 2 1) stamp_fits_then tick_run) (rest (ctx 2 1))) stamp_fits_late second_uid

heard_fits : max (get_timestamp (some (ctx 0 0))) (Vclock.get (some (clock 1 7 9)) 1) + 1 < u64_mod
unfolding get_timestamp Vclock.get
heard_fits = omega arith

merge_clock_after_example :
    (last : Context) × (merge_clock (some (ctx 0 0)) (some (clock 1 7 9)) ≡ some last)
    × (Vclock.compare (some (clock 1 7 9)) (some last.local_clock) ≡ happens_before)
    × (Vclock.compare (some (clock 4 0 2)) (some last.local_clock) ≡ happens_before)
merge_clock_after_example =
    merge_clock_after (ctx 0 0) (clock 1 7 9) ctx-IsNode
      (clock-IsValid 1 7 9 (omega arith) (omega arith) (omega arith)) heard_fits

-- A context for node 64, before and after it generated an identifier and ticked.
abbrev outside : ℕ → Context
outside k = record {
  node_id = 64;
  local_clock = record { entries = replicate 64 0; num_nodes = 64 };
  op_counter = k;
}

outside_run : create (some (ctx 0 0)) true true 64 ≡ some (outside 0)
unfolding create Vclock.init
outside_run = refl

first_repeat : gen_uid (some (outside 0)) ≡ (uid_create 64 0, some (outside 1))
unfolding gen_uid Vclock.increment Vclock.get
first_repeat = refl

tick-outside : tick (some (outside 1)) ≡ some (outside 1)
unfolding tick Vclock.increment
tick-outside = refl

no_stamp : (k : ℕ) → get_timestamp (some (outside k)) + 1 < u64_mod
unfolding get_timestamp Vclock.get
no_stamp k = omega arith

uid_repeats_example : (last : Context) × (gen_uid (some (outside 1)) ≡ (uid_create 64 0, some last))
uid_repeats_example = uid_repeats (ctx 0 0) (outside 0) (outside 1) 64 (omega arith) outside_run (
    next (generate (uid_create 64 0) (outside 1) (no_stamp 0) first_repeat)
      (next (work (outside 1) (no_stamp 1) tick-outside) (rest (outside 1))))

-- Memory for a context, its pool and its domain, which has no pool of its own then.
abbrev heap : Heap
heap = record {
  answers = 640 ∷ 1280 ∷ 4096 ∷ 1920 ∷ [];
  obtained = [];
  freed = [];
  memory = λ address. 0;
}

abbrev made : Option Node × Heap
made = create_node heap (ctx 0 0) 1

abbrev after : Heap
after = (destroy_node made.0 made.1).1

context_memory_example : copies 1280 after.obtained + 0 ≡ 0 + copies 1280 after.freed + 0
context_memory_example =
    context_memory heap made.1 (ctx 0 0) 1 made.0 [] (λ x given. omega arith) (λ x. omega arith)
      1280 (omega arith)
