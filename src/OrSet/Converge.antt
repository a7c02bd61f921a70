-- ===== src/OrSet/Converge.antt =====
-- The loop of `merge` of an OR-Set, and what the two sets know of each tag.
use cauchy.Prelude.{
  ℕ, ◌+◌, ◌-◌, ◌%◌, ◌≡◌, refl, max, ◌&&◌, not, List, [], ◌∷◌, take, if◌then◌else◌, arith,
  Bool-cases, Option-cases, inl, inr,
}
use cauchy.Types.{Uid, ok}
use cauchy.Cells.{u64_mod}
use cauchy.GSet.{granted}
use cauchy.OrSet.{OrSet, Entry}
use cauchy.OrSet.Merge.{find_by_tag, chain_at, merge_entry, merge_all}
use cauchy.OrSet.Status.{
  share, status, IsTable, status_of, find_by_tag-none, find_by_tag-some, chain_few,
}
use cauchy.OrSet.Join.{copied-join, buried-join, known-join}

-- The state `c` is well formed and knows what `dst` knew and what `news` says.
pub record Joins (dst : OrSet) (news : ℕ → Uid → ℕ) (c : OrSet) : Type 0 where
  pub table : IsTable c
  pub knows : (h : ℕ) (t : Uid) → status_of c h t ≡ max (status_of dst h t) (news h t)

-- One round of the loop, with memory.
pub merge_entry-Joins :
    (dst : OrSet) (src : Entry)
    → IsTable dst
    → (c : OrSet) × (merge_entry granted dst src ≡ (ok, c)) × Joins dst (λ h t. share h t src) c
unfolding merge_entry
merge_entry-Joins dst src table =
    elim (Option-cases (find_by_tag src.hash src.tag (chain_at dst src.hash))) [
      | inl absent ↦
          let fresh = find_by_tag-none src.hash src.tag (chain_at dst src.hash) absent in
          let (c_table, knows) =
            copied-join dst src table ((dst.entry_count + 1) % u64_mod)
              (if not src.removed then (dst.active_count + 1) % u64_mod else dst.active_count)
              dst.timestamp (take src.size src.bytes) fresh in
          (_, rw absent, record { table = c_table; knows = knows })
      | inr (existing, present) ↦ elim (Bool-cases (src.removed && not existing.removed)) [
        | inl news ↦
            let (_, one) =
              find_by_tag-some src.hash src.tag (chain_at dst src.hash) existing present
                (chain_few dst src.hash src.tag table) in
            let (c_table, knows) =
              buried-join dst src table dst.entry_count ((dst.active_count + u64_mod - 1) % u64_mod)
                one (ground arith) in
            (_, rw (present, news), record { table = c_table; knows = knows })
        | inr known ↦ (
          dst,
          rw (present, known),
          record { table = table; knows = known-join dst src table existing present known },
        )
      ]
    ]

-- The loop over a list of entries, with memory in every round.
pub merge_all-Joins :
    (k : ℕ) (dst : OrSet) (news : List Entry)
    → IsTable dst
    → (c : OrSet) × (merge_all (λ i. granted) k dst news ≡ (ok, c))
      × Joins dst (λ h t. status h t news) c
unfolding merge_all
merge_all-Joins k dst [] table = (dst, refl, record { table = table; knows = λ h t. omega arith })
merge_all-Joins k dst (src ∷ news) table =
    let (d, run, mid) = merge_entry-Joins dst src table in
    let (c, runs, last) = merge_all-Joins (k + 1) d news mid.table in
    (
      c,
      rw run runs,
      record { table = last.table; knows = λ h t. omega (arith, mid.knows h t, last.knows h t) },
    )
