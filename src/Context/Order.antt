-- ===== src/Context/Order.antt =====
-- Identifiers are fresh, and receiving a clock puts a node after it.
use mathlib.Core.Option.{some-injective}
use cauchy.Prelude.{ℕ, ◌+◌, ◌≤◌, ◌<◌, ◌≡◌, refl, sym, ap, ap₂, ◌∙◌, subst, max, Option, some, arith}
use cauchy.Prelude.Int.{negsuc}
use cauchy.Types.{Uid, uid_create, uid_compare, happens_before}
use cauchy.Cells.{u64_mod}
use cauchy.Vclock
use cauchy.Vclock.{Vclock, get, increment}
use cauchy.Vclock.Merge.{merge-get}
use cauchy.Vclock.Compare.{compare_iff, bumped, increment-bumped, get-bumped}
use cauchy.Vclock.Updates.{IsValidPtr, increment-IsValid}
use cauchy.Context.{Context, held, gen_uid, get_timestamp, tick, merge_clock}

-- A context whose node is one of the active nodes of its well-formed clock.
pub record IsNode (ctx : Context) : Type 0 where
  pub clock : Vclock.IsValid ctx.local_clock
  pub active : ctx.node_id < ctx.local_clock.num_nodes

-- What the program can do with a context, and the clock's own count before it wraps.
pub data Act (ctx : Context) : Context → Type 0 where
  generate :
      (u : Uid) (last : Context)
      → get_timestamp (some ctx) + 1 < u64_mod
      → gen_uid (some ctx) ≡ (u, some last)
      → Act ctx last
  work :
      (last : Context)
      → get_timestamp (some ctx) + 1 < u64_mod
      → tick (some ctx) ≡ some last
      → Act ctx last
  hear :
      (remote : Vclock) (last : Context)
      → Vclock.IsValid remote
      → max (get_timestamp (some ctx)) (get (some remote) ctx.node_id) + 1 < u64_mod
      → merge_clock (some ctx) (some remote) ≡ some last
      → Act ctx last

pub data Acts : Context → Context → Type 0 where
  rest : (ctx : Context) → Acts ctx ctx
  next : {ctx mid last : Context} → Act ctx mid → Acts mid last → Acts ctx last

ticked :
    (vc : Vclock) (i : ℕ)
    → Vclock.IsValid vc
    → i < vc.num_nodes
    → Vclock.IsValid (held (increment (some vc) i) vc)
      × (i < (held (increment (some vc) i) vc).num_nodes)
      × (get (some vc) i + 1 < u64_mod
          → get (some (held (increment (some vc) i) vc)) i ≡ get (some vc) i + 1)
ticked vc i v h =
    let valid : Vclock.IsValid (bumped vc i) =
      subst IsValidPtr (increment-bumped vc i h) (increment-IsValid (some vc) i v) in
    rw (increment-bumped vc i h) (valid, h, λ fits. ground (arith, get-bumped vc i v h i))

-- Where a context goes when its clock becomes `c`.
advance :
    (ctx last : Context) (c : Vclock)
    → ctx.node_id ≡ last.node_id
    → c ≡ last.local_clock
    → Vclock.IsValid c
    → ctx.node_id < c.num_nodes
    → get_timestamp (some ctx) < get (some c) ctx.node_id
    → IsNode last
      × (last.node_id ≡ ctx.node_id)
      × (get_timestamp (some ctx) < get_timestamp (some last))
unfolding get_timestamp
advance ctx last c node clock v active later =
    let nodes = ap (λ (vc : Vclock). vc.num_nodes) clock in
    let count = ap₂ (λ (vc : Vclock) n. get (some vc) n) clock node in
    (
      record { clock = subst Vclock.IsValid clock v; active = omega (arith, node, nodes, active) },
      sym node,
      omega (arith, later, count),
    )

Act-advances :
    {ctx last : Context}
    → Act ctx last
    → IsNode ctx
    → IsNode last
      × (last.node_id ≡ ctx.node_id)
      × (get_timestamp (some ctx) < get_timestamp (some last))
unfolding gen_uid tick merge_clock get_timestamp
Act-advances {ctx} (generate u last fits run) ok =
    let (v, active, count) = ticked ctx.local_clock ctx.node_id ok.clock ok.active in
    let e = ap (λ (r : Uid × Option Context). r.1) run in
    advance ctx last _ (ap (λ (c : Context). c.node_id) (some-injective _ last e))
      (ap (λ (c : Context). c.local_clock) (some-injective _ last e)) v active
      (omega (arith, count fits))
Act-advances {ctx} (work last fits run) ok =
    let (v, active, count) = ticked ctx.local_clock ctx.node_id ok.clock ok.active in
    let e = some-injective _ last run in
    advance ctx last _ (ap (λ (c : Context). c.node_id) e) (ap (λ (c : Context). c.local_clock) e) v
      active (omega (arith, count fits))
Act-advances {ctx} (hear remote last remote_ok fits run) ok =
    let (m, merged, m_ok, nodes, counts) = merge-get ctx.local_clock remote ok.clock remote_ok in
    let (v, active, count) = ticked m ctx.node_id m_ok (omega (arith, nodes, ok.active)) in
    let e = some-injective _ last (
      subst
        (λ (x : Option Vclock).
          some (record ctx {
            local_clock =
                held (increment (some (held x ctx.local_clock)) ctx.node_id)
                  (held x ctx.local_clock);
          })
          ≡ some last)
        merged run) in
    advance ctx last _ (ap (λ (c : Context). c.node_id) e) (ap (λ (c : Context). c.local_clock) e) v
      active (omega (arith, counts ctx.node_id, count))

Acts-advance :
    {ctx last : Context}
    → Acts ctx last
    → IsNode ctx
    → IsNode last
      × (last.node_id ≡ ctx.node_id)
      × (get_timestamp (some ctx) ≤ get_timestamp (some last))
Acts-advance (rest ctx) ok = (ok, refl, omega arith)
Acts-advance (next act acts) ok =
    let (ok', same, less) = Act-advances act ok in
    let (ok'', same', less') = Acts-advance acts ok' in
    (ok'', same' ∙ same, omega (arith, less, less'))

gen_uid_stamp :
    (ctx last : Context) (u : Uid)
    → IsNode ctx
    → get_timestamp (some ctx) + 1 < u64_mod
    → gen_uid (some ctx) ≡ (u, some last)
    → (ctx.node_id ≡ u.node_id)
      × (u.timestamp ≡ get_timestamp (some ctx) + 1)
      × (get_timestamp (some last) ≡ u.timestamp)
unfolding gen_uid get_timestamp uid_create
gen_uid_stamp ctx last u ok fits run =
    let (_, _, count) = ticked ctx.local_clock ctx.node_id ok.clock ok.active in
    let uid = ap (λ (r : Uid × Option Context). r.0) run in
    let state = some-injective _ last (ap (λ (r : Uid × Option Context). r.1) run) in
    let stamp = ap (λ (v : Uid). v.timestamp) uid in
    (
      ap (λ (v : Uid). v.node_id) uid,
      sym stamp ∙ count fits,
      sym (ap (λ (c : Context). get (some c.local_clock) c.node_id) state) ∙ stamp,
    )

before : (u v : Uid) → u.timestamp < v.timestamp → uid_compare u v ≡ negsuc 0
unfolding uid_compare
before u v h = ground arith

-- Of two identifiers that a node generates, whatever it does between, the later one is the greater:
-- no identifier comes twice. The node is an active one of its clock, and its count does not wrap.
pub uids_increase :
    (ctx mid late last : Context) (u v : Uid)
    → IsNode ctx
    → get_timestamp (some ctx) + 1 < u64_mod
    → gen_uid (some ctx) ≡ (u, some mid)
    → Acts mid late
    → get_timestamp (some late) + 1 < u64_mod
    → gen_uid (some late) ≡ (v, some last)
    → (uid_compare u v ≡ negsuc 0) × (u.node_id ≡ ctx.node_id) × (v.node_id ≡ ctx.node_id)
uids_increase ctx mid late last u v ok fits run acts fits' run' =
    let (node, _, stamp) = gen_uid_stamp ctx mid u ok fits run in
    let (ok', same, _) = Act-advances (generate u mid fits run) ok in
    let (ok'', same', le) = Acts-advance acts ok' in
    let (node', stamp', _) = gen_uid_stamp late last v ok'' fits' run' in
    (before u v (omega (arith, stamp, stamp', le)), sym node, sym node' ∙ same' ∙ same)

-- Where a node is an active one of its well-formed clock, the clock that it receives is well formed,
-- and its count stays below 2 ^ 64: the clock that it receives happens before the clock that it has
-- then, and so does the clock that it had.
pub merge_clock_after :
    (ctx : Context) (remote : Vclock)
    → IsNode ctx
    → Vclock.IsValid remote
    → max (get_timestamp (some ctx)) (get (some remote) ctx.node_id) + 1 < u64_mod
    → (last : Context) × (merge_clock (some ctx) (some remote) ≡ some last)
      × (Vclock.compare (some remote) (some last.local_clock) ≡ happens_before)
      × (Vclock.compare (some ctx.local_clock) (some last.local_clock) ≡ happens_before)
unfolding merge_clock get_timestamp
merge_clock_after ctx remote ok remote_ok fits =
    let (m, merged, m_ok, nodes, counts) = merge-get ctx.local_clock remote ok.clock remote_ok in
    let active : ctx.node_id < m.num_nodes = omega (arith, nodes, ok.active) in
    let c = bumped m ctx.node_id in
    let cells = get-bumped m ctx.node_id m_ok active in
    let own = counts ctx.node_id in
    (
      record ctx { local_clock = c },
      rw (merged, increment-bumped m ctx.node_id active),
      (compare_iff remote c happens_before).1 (
        λ i. ground (arith, cells i, counts i, own),
        (ctx.node_id, ground (arith, cells ctx.node_id, own)),
      ),
      (compare_iff ctx.local_clock c happens_before).1 (
        λ i. ground (arith, cells i, counts i, own),
        (ctx.node_id, ground (arith, cells ctx.node_id, own)),
      ),
    )
