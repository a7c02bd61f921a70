-- ===== src/Context/Repeats.antt =====
-- Node numbers that the clock of a context does not have.
use mathlib.Core.Option.{some-injective}
use cauchy.Prelude.{
  ℕ, subst, ap, Option, ◌+◌, ◌%◌, ◌≤◌, ◌≡◌, refl, true, some, le→leb, leb, Bool-cases, inl, inr,
  arith,
}
use cauchy.Types.{Uid, uid_create}
use cauchy.Cells.{u64_mod}
use cauchy.Vclock
use cauchy.Vclock.{Vclock}
use cauchy.Context.{Context, held, create, gen_uid, tick, merge_clock}
use cauchy.Context.Order.{Act, generate, work, hear, Acts, rest, next}

increment_inactive :
    (vc : Vclock) (i : ℕ) → vc.num_nodes ≤ i → Vclock.increment (some vc) i ≡ some vc
unfolding Vclock.increment
increment_inactive vc i out = ground (arith, le→leb vc.num_nodes i out)

get_inactive : (vc : Vclock) (i : ℕ) → vc.num_nodes ≤ i → Vclock.get (some vc) i ≡ 0
unfolding Vclock.get
get_inactive vc i out = ground (arith, le→leb vc.num_nodes i out)

gen_uid_inactive :
    (ctx : Context)
    → ctx.local_clock.num_nodes ≤ ctx.node_id
    → gen_uid (some ctx) ≡ (
      uid_create ctx.node_id 0,
      some (record ctx { op_counter = (ctx.op_counter + 1) % u64_mod }),
    )
unfolding gen_uid
gen_uid_inactive ctx out = rw (
  increment_inactive ctx.local_clock ctx.node_id out,
  get_inactive ctx.local_clock ctx.node_id out,
)

-- What a context for a node number that no clock has keeps.
record IsOutside (node : ℕ) (ctx : Context) : Type 0 where
  own : ctx.node_id ≡ node
  few : ctx.local_clock.num_nodes ≤ 64

-- An increment leaves the number of nodes as it is.
increment_nodes :
    (vc : Vclock) (i : ℕ) → (held (Vclock.increment (some vc) i) vc).num_nodes ≡ vc.num_nodes
unfolding Vclock.increment
increment_nodes vc i = elim (Bool-cases (leb vc.num_nodes i)) [
  | inl out ↦ rw out refl
  | inr active ↦ rw active refl
]

merge_nodes :
    (vc remote : Vclock)
    → vc.num_nodes ≤ 64
    → remote.num_nodes ≤ 64
    → (held (Vclock.merge (some vc) (some remote)) vc).num_nodes ≤ 64
unfolding Vclock.merge
merge_nodes vc remote few few' = ground (arith, few, few')

Act-IsOutside :
    {ctx last : Context} (node : ℕ)
    → 64 ≤ node
    → Act ctx last
    → IsOutside node ctx
    → IsOutside node last
unfolding gen_uid tick merge_clock
Act-IsOutside {ctx} node large (generate u last fits run) h =
    let same = some-injective _ last (ap (λ (r : Uid × Option Context). r.1) run) in
    subst (IsOutside node) same (record {
      own = h.own;
      few = omega (arith, increment_nodes ctx.local_clock ctx.node_id, h.few);
    })
Act-IsOutside {ctx} node large (work last fits run) h =
    subst (IsOutside node) (some-injective _ last run) (record {
      own = h.own;
      few = omega (arith, increment_nodes ctx.local_clock ctx.node_id, h.few);
    })
Act-IsOutside {ctx} node large (hear remote last valid fits run) h =
    let merged = held (Vclock.merge (some ctx.local_clock) (some remote)) ctx.local_clock in
    let few = merge_nodes ctx.local_clock remote h.few valid.active in
    subst (IsOutside node) (some-injective _ last run)
      (record { own = h.own; few = omega (arith, increment_nodes merged ctx.node_id, few) })

Acts-IsOutside :
    {ctx last : Context} (node : ℕ)
    → 64 ≤ node
    → Acts ctx last
    → IsOutside node ctx
    → IsOutside node last
Acts-IsOutside node large (rest ctx) h = h
Acts-IsOutside node large (next act acts) h =
    Acts-IsOutside node large acts (Act-IsOutside node large act h)

-- A context that was created for a node number of 64 or more generates the same identifier
-- whenever it is asked for one, whatever identifiers it generated, however it ticked and whatever
-- well-formed clocks it received before.
pub uid_repeats :
    (block ctx late : Context) (node : ℕ)
    → 64 ≤ node
    → create (some block) true true node ≡ some ctx
    → Acts ctx late
    → (last : Context) × (gen_uid (some late) ≡ (uid_create node 0, some last))
unfolding create Vclock.init
uid_repeats block ctx late node large made acts =
    let start : IsOutside node ctx =
      subst (IsOutside node) (some-injective _ ctx made)
        (record { own = refl; few = omega arith }) in
    let h = Acts-IsOutside node large acts start in
    (
      _,
      subst
          (λ n.
            gen_uid (some late)
            ≡ (uid_create n 0, some (record late { op_counter = (late.op_counter + 1) % u64_mod })))
          h.own (gen_uid_inactive late (omega (arith, h.few, h.own))),
    )
