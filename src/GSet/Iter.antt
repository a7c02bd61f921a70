-- ===== src/GSet/Iter.antt =====
-- The iterator of src/crdt/g_set.c: the chain that is left of a bucket, and the bucket's number.
pub mod Walk
use cauchy.Prelude.{
  ℕ, zero, suc, ◌+◌, ◌-◌, Bool, true, false, ◌&&◌, Option, none, some, List, [], ◌∷◌, ltb, get_or,
  if◌then◌else◌,
}
use cauchy.GSet.{GSet, Elem}

-- `cauchy_gset_iter_t`; `gset` is `set`.
pub record Iter : Type 0 where
  pub gset : Option GSet
  pub bucket_idx : ℕ
  pub current : List Elem

abbrev pub at_end : List Elem → Bool
at_end [] = true
at_end (elem ∷ rest) = false

-- The loop that looks for the next bucket with an element. Its fuel is the number of buckets, of
-- which each round leaves one behind.
abbrev pub skip : ℕ → GSet → ℕ → List Elem → ℕ × List Elem
skip zero gset i current = (i, current)
skip (suc fuel) gset i current =
    let rest = skip fuel gset (i + 1) (get_or gset.buckets (i + 1) []) in
    if at_end current && ltb i (gset.num_buckets - 1) then rest else (i, current)

unfoldable pub iter_init : Option Iter → Option GSet → Option Iter
iter_init none gset = none
iter_init (some iter) none = some (record { gset = none; bucket_idx = 0; current = [] })
iter_init (some iter) (some gset) =
    let (i, current) = skip gset.num_buckets gset 0 (get_or gset.buckets 0 []) in
    some (record { gset = some gset; bucket_idx = i; current = current })

-- What an iterator over `gset` answers at a chain, and the iterator afterwards.
abbrev pub visit : Option GSet → ℕ → List Elem → Option (List ℕ × ℕ) × Option Iter
visit none i current = (none, some (record { gset = none; bucket_idx = i; current = current }))
visit (some gset) i [] = (none, some (record { gset = some gset; bucket_idx = i; current = [] }))
visit (some gset) i (elem ∷ rest) =
    let (j, current) = skip gset.num_buckets gset i rest in
    (
      some (elem.bytes, elem.size),
      some (record { gset = some gset; bucket_idx = j; current = current }),
    )

-- The answer, `*data` and `*size` where it is true, and the iterator afterwards.
unfoldable pub iter_next : Option Iter → Option (List ℕ × ℕ) × Option Iter
iter_next none = (none, none)
iter_next (some iter) = visit iter.gset iter.bucket_idx iter.current
