-- ===== src/Context.antt =====
-- include/cauchy/cauchy.h and src/core/cauchy.c: a node of the cluster with its clock. The memory
-- pool and the hazard domain that a context owns are not used here, and whether their creation
-- succeeds is an argument; Lifecycle composes the three.
pub mod Order
pub mod Repeats
pub mod Library
pub mod Lifecycle
use cauchy.Prelude.{ℕ, ◌+◌, ◌%◌, Bool, true, false, Option, none, some, replicate, if◌then◌else◌}
use cauchy.Types.{Uid, uid_create}
use cauchy.Cells.{max_nodes, u64_mod}
use cauchy.Vclock
use cauchy.Vclock.{Vclock}

-- `cauchy_context_t`, without the pointers to the pool and to the hazard domain
pub record Context : Type 0 where
  pub node_id : ℕ
  pub local_clock : Vclock
  pub op_counter : ℕ

-- What `&ctx->local_clock` holds after a call.
abbrev pub held : Option Vclock → Vclock → Vclock
held none old = old
held (some new) old = new

-- `memset(ctx, 0, ...)`
abbrev zeroed : Vclock
zeroed = record { entries = replicate max_nodes 0; num_nodes = 0 }

-- `block` is what `cauchy_aligned_alloc` returned.
unfoldable pub create : Option Context → Bool → Bool → ℕ → Option Context
create none pool domain node_id = none
create (some block) false domain node_id = none
create (some block) true false node_id = none
create (some block) true true node_id = some (record {
  node_id = node_id;
  local_clock = held (Vclock.init (some zeroed) max_nodes) zeroed;
  op_counter = 0;
})

unfoldable pub gen_uid : Option Context → Uid × Option Context
gen_uid none = (record { node_id = 0; timestamp = 0 }, none)
gen_uid (some ctx) =
    let clock = held (Vclock.increment (some ctx.local_clock) ctx.node_id) ctx.local_clock in
    (
      uid_create ctx.node_id (Vclock.get (some clock) ctx.node_id),
      some (record ctx { local_clock = clock; op_counter = (ctx.op_counter + 1) % u64_mod }),
    )

unfoldable pub get_timestamp : Option Context → ℕ
get_timestamp none = 0
get_timestamp (some ctx) = Vclock.get (some ctx.local_clock) ctx.node_id

unfoldable pub tick : Option Context → Option Context
tick none = none
tick (some ctx) = some (record ctx {
  local_clock = held (Vclock.increment (some ctx.local_clock) ctx.node_id) ctx.local_clock;
})

unfoldable pub merge_clock : Option Context → Option Vclock → Option Context
merge_clock (some ctx) (some remote) =
    let merged = held (Vclock.merge (some ctx.local_clock) (some remote)) ctx.local_clock in
    some (record ctx { local_clock = held (Vclock.increment (some merged) ctx.node_id) merged })
merge_clock ctx _ = ctx
