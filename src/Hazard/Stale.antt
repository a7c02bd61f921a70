-- ===== src/Hazard/Stale.antt =====
-- src/core/hazard.c: what the thread-local variables of a thread name after its domain was destroyed.
use mathlib.Core.List.{append-nil}
use cauchy.Prelude.{
  ℕ, ◌<◌, ◌≡◌, ◌≢◌, refl, sym, ◌∙◌, true, false, some, [], ◌∷◌, ◌==◌, ==_refl, leb, arith,
}
use cauchy.Prelude.Int.{pos}
use cauchy.Hazard.{
  RetiredNode, HazardDomain, Thread, new_record, get_hazard_record, Outcome, protect,
}
use cauchy.Hazard.Retire.{call_of, push_retired, retire_listed, retire, reclaim, domain_create}

-- The domain that is created at an address.
abbrev fresh : ℕ → HazardDomain
fresh address = record { address = address; records = []; record_count = 0 }

-- With the only record, of a thread that retired one node.
abbrev retired : ℕ → ℕ → RetiredNode → HazardDomain
retired address new node = record {
  address = address;
  records = push_retired node (new_record new) ∷ [];
  record_count = 1;
}

stale_protect :
    (address r p i : ℕ)
    → r ≢ 0
    → i < 4
    → protect 0
        ((p, λ d. p) ∷ [])
        (fresh address)
        (record { domain = address; hazard_record = r })
        (pos i)
      ≡ some (record {
        answer = p;
        domain = fresh address;
        thread = record { domain = address; hazard_record = r };
        calls = [];
      })
unfolding protect get_hazard_record
stale_protect address r p i real small =
    let accepted : leb 4 i ≡ false = ground arith in
    let used : (r == 0) ≡ false = ground arith in
    rw (accepted, ==_refl address, used) (rw (used, ==_refl p) refl)

other_retire :
    (address new : ℕ) (other : Thread) (node : RetiredNode)
    → new ≢ 0
    → other.domain ≢ address
    → node.ptr ≢ 0
    → retire new true (fresh address) other node ≡ record {
      answer = 0;
      domain = retired address new node;
      thread = record { domain = address; hazard_record = new };
      calls = [];
    }
unfolding retire retire_listed get_hazard_record
other_retire address new other node real foreign node_here =
    let new_one : (new == 0) ≡ false = ground arith in
    let changes : (other.domain == address) ≡ false = ground arith in
    let some_node : (node.ptr == 0) ≡ false = ground arith in
    rw (some_node, changes) (rw new_one (rw (new_one, ==_refl new) (rw (==_refl new) refl)))

other_reclaim :
    (address new : ℕ) (node : RetiredNode)
    → new ≢ 0
    → node.ptr ≢ 0
    → (reclaim 0
        (retired address new node)
        (record { domain = address; hazard_record = new })).calls
      ≡ call_of node
unfolding reclaim get_hazard_record
other_reclaim address new node real node_here =
    let used : (new == 0) ≡ false = ground arith in
    let free : (0 == node.ptr) ≡ false = ground arith in
    rw (==_refl address, used) (rw (used, ==_refl new) (rw free (append-nil (call_of node))))

-- A thread that used a domain remembers it after the domain was destroyed. When a domain is created
-- at the same address, the thread protects a pointer by its record of the old domain, which the new
-- one does not have: another thread that retires the pointer and reclaims calls its retire function,
-- if there is one, at once.
pub hazard_stale :
    (address r p new i : ℕ) (other : Thread) (node : RetiredNode)
    → 0 < address
    → r ≢ 0
    → new ≢ 0
    → p ≢ 0
    → i < 4
    → other.domain ≢ address
    → node.ptr ≡ p
    → let stale : Thread = record { domain = address; hazard_record = r } in
      (domain : HazardDomain) × (out : Outcome) × (domain_create address ≡ some domain)
      × (protect 0 ((p, λ d. p) ∷ []) domain stale (pos i) ≡ some out)
      × (out.answer ≡ p)
      × (let gone = retire new true out.domain other node in
          (reclaim 0 gone.domain gone.thread).calls ≡ call_of node)
unfolding domain_create
hazard_stale address r p new i other node placed real real_new some_p small foreign same =
    let made : (address == 0) ≡ false = ground arith in
    let some_node : node.ptr ≢ 0 = λ e. some_p (sym same ∙ e) in
    let gone = other_retire address new other node real_new foreign some_node in
    (
      fresh address,
      _,
      rw made refl,
      stale_protect address r p i real small,
      refl,
      rw gone (other_reclaim address new node real_new some_node),
    )
