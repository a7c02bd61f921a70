-- ===== src/Types/Codes.antt =====
-- The enumerations of include/cauchy/types.h as the integers that C makes of them, and
-- src/core/types.c on every integer: its `default` cases are for those that are no code.
use Prim.Native.String.{String}
use cauchy.Prelude.{ℕ, zero, suc, ◌≡◌, refl, ◌==◌, if◌then◌else◌, Option, none, some, List, [], ◌∷◌}
use cauchy.Prelude.Int.{ℤ, pos, negsuc}
use cauchy.Types.{
  Result, ok, err_nomem, err_invalid, err_notfound, err_exists, err_full, err_empty, err_timeout,
  err_concurrent, err_causal, err_network, err_internal, result_str, CrdtType, g_counter,
  pn_counter, lww_register, g_set, two_p_set, or_set, lww_map, rga, type_count, crdt_type_str,
  Causality, happens_before, concurrent, happens_after, equal,
}

abbrev pub code : Result → ℤ
code ok = pos 0
code err_nomem = negsuc 0
code err_invalid = negsuc 1
code err_notfound = negsuc 2
code err_exists = negsuc 3
code err_full = negsuc 4
code err_empty = negsuc 5
code err_timeout = negsuc 6
code err_concurrent = negsuc 7
code err_causal = negsuc 8
code err_network = negsuc 9
code err_internal = negsuc 10

abbrev pub causality_code : Causality → ℤ
causality_code happens_before = negsuc 0
causality_code concurrent = pos 0
causality_code happens_after = pos 1
causality_code equal = pos 2

abbrev nth {ℓ} : {A : Type ℓ} → List A → ℕ → Option A
nth [] i = none
nth (x ∷ xs) zero = some x
nth (x ∷ xs) (suc i) = nth xs i

-- The codes -1, -2, ... in order.
abbrev errors : List Result
errors =
    err_nomem ∷ err_invalid ∷ err_notfound ∷ err_exists ∷ err_full ∷ err_empty ∷ err_timeout
    ∷ err_concurrent ∷ err_causal ∷ err_network ∷ err_internal ∷ []

unfoldable pub of_code : ℤ → Option Result
of_code (pos n) = if n == 0 then some ok else none
of_code (negsuc n) = nth errors n

abbrev text_of : Option Result → String
text_of none = "Unknown error"
text_of (some result) = result_str result

-- `cauchy_result_str` on any integer
unfoldable pub result_text : ℤ → String
result_text n = text_of (of_code n)

abbrev types : List CrdtType
types =
    g_counter ∷ pn_counter ∷ lww_register ∷ g_set ∷ two_p_set ∷ or_set ∷ lww_map ∷ rga ∷ type_count
    ∷ []

unfoldable pub type_of_code : ℤ → Option CrdtType
type_of_code (pos n) = nth types n
type_of_code (negsuc n) = none

-- `cauchy_crdt_type_str` on any integer
unfoldable pub crdt_type_text : ℤ → String
crdt_type_text n = elim (type_of_code n) [ none ↦ "Unknown CRDT" | some t ↦ crdt_type_str t ]

-- A result code is read back as itself.
of_code-code : (result : Result) → of_code (code result) ≡ some result
unfolding of_code
of_code-code ok = refl
of_code-code err_nomem = refl
of_code-code err_invalid = refl
of_code-code err_notfound = refl
of_code-code err_exists = refl
of_code-code err_full = refl
of_code-code err_empty = refl
of_code-code err_timeout = refl
of_code-code err_concurrent = refl
of_code-code err_causal = refl
of_code-code err_network = refl
of_code-code err_internal = refl

-- A code gives the text of its result.
pub result_text-code : (result : Result) → result_text (code result) ≡ result_str result
unfolding result_text
result_text-code result = rw (result_text, of_code-code result) refl
