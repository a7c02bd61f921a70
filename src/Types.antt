-- ===== src/Types.antt =====
-- include/cauchy/types.h and src/core/types.c: identifiers, result codes, causality.
pub mod Codes
use Prim.Native.String.{String}
use cauchy.Prelude.{ℕ, Bool, true, false, ◌&&◌, not, ltb, ◌==◌, if◌then◌else◌}
use cauchy.Prelude.Int.{ℤ, pos, negsuc}

-- `cauchy_uid_t`
pub record Uid : Type 0 where
  pub node_id : ℕ
  pub timestamp : ℕ

-- `cauchy_result_t`
pub data Result : Type 0 where
  ok err_nomem err_invalid err_notfound err_exists err_full err_empty : Result
  err_timeout err_concurrent err_causal err_network err_internal : Result

-- `res == CAUCHY_OK`
abbrev pub is_ok : Result → Bool
is_ok ok = true
is_ok _ = false

-- `cauchy_causality_t`
pub data Causality : Type 0 where
  happens_before concurrent happens_after equal : Causality

unfoldable pub uid_create : ℕ → ℕ → Uid
uid_create node ts = record { node_id = node; timestamp = ts }

-- `cauchy_uid_compare`: the time stamp first, then the node.
unfoldable pub uid_compare : Uid → Uid → ℤ
uid_compare a b =
    if not (a.timestamp == b.timestamp)
    then (if ltb a.timestamp b.timestamp then negsuc 0 else pos 1)
    else if not (a.node_id == b.node_id)
    then (if ltb a.node_id b.node_id then negsuc 0 else pos 1)
    else pos 0

unfoldable pub uid_equals : Uid → Uid → Bool
uid_equals a b = a.node_id == b.node_id && a.timestamp == b.timestamp

-- `x == y` on `cauchy_causality_t`
abbrev pub same_causality : Causality → Causality → Bool
same_causality happens_before happens_before = true
same_causality concurrent concurrent = true
same_causality happens_after happens_after = true
same_causality equal equal = true
same_causality _ _ = false

-- `cauchy_crdt_type_t`
pub data CrdtType : Type 0 where
  g_counter pn_counter lww_register g_set two_p_set or_set lww_map rga type_count : CrdtType

-- The default case of the C switch is for numbers that are no code.
unfoldable pub result_str : Result → String
result_str ok = "OK"
result_str err_nomem = "Out of memory"
result_str err_invalid = "Invalid argument"
result_str err_notfound = "Not found"
result_str err_exists = "Already exists"
result_str err_full = "Container full"
result_str err_empty = "Container empty"
result_str err_timeout = "Operation timed out"
result_str err_concurrent = "Concurrent modification"
result_str err_causal = "Causal dependency not satisfied"
result_str err_network = "Network error"
result_str err_internal = "Internal error"

unfoldable pub crdt_type_str : CrdtType → String
crdt_type_str g_counter = "G-Counter"
crdt_type_str pn_counter = "PN-Counter"
crdt_type_str lww_register = "LWW-Register"
crdt_type_str g_set = "G-Set"
crdt_type_str two_p_set = "2P-Set"
crdt_type_str or_set = "OR-Set"
crdt_type_str lww_map = "LWW-Map"
crdt_type_str rga = "RGA"
crdt_type_str type_count = "Unknown CRDT"
