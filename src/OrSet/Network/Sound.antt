-- ===== src/OrSet/Network/Sound.antt =====
-- What one replica keeps, whatever step a network of OR-Sets makes.
use mathlib.Core.Option.{some-injective}
use cauchy.Prelude.{
  ℕ, ◌+◌, ◌%◌, ◌≤◌, ◌<◌, ◌≡◌, refl, sym, ◌∙◌, ap, subst, true, false, Option, some, List, [], ◌∷◌,
  ◌==◌, length, get_or, take, update, if◌then◌else◌, arith, Bool-cases, inl, inr, ==_iff, ==_refl,
  get_or-replicate, length-replicate,
}
use cauchy.Types.{Uid, uid_create, uid_equals, Result, ok}
use cauchy.Cells.{u64_mod}
use cauchy.GSet.{granted, hash_data}
use cauchy.OrSet.{OrSet, Entry, entry_of, init, add, remove}
use cauchy.OrSet.Merge.{merge, tagged, chain_at}
use cauchy.OrSet.Status.{share, tags, IsTable, status_of, tagged_sound, uid_equals_refl}
use cauchy.OrSet.Content.{Agrees, IsWritten}
use cauchy.OrSet.Replicas.{Statuses, succeeded, merge-status}
use cauchy.OrSet.Local.{tags_none, next_tag, add-status}
use cauchy.OrSet.AddWins.{buried, remove-buried, buried-IsWritten, buried-unknown}
use cauchy.OrSet.Network.{write_tag}
use cauchy.OrSet.Network.Clocks.{clock}

-- A well-formed set of entries that were written, which knows no tag that was not given out yet.
pub record IsSound (written : Uid → List ℕ) (done : ℕ → ℕ) (orset : OrSet) : Type 0 where
  pub content : IsWritten written orset
  pub old : (h : ℕ) (t : Uid) → done t.node_id < t.timestamp → status_of orset h t ≡ 0

-- A tag that a table knows nothing of stands in no chain.
tags_nowhere :
    (orset : OrSet) (t : Uid)
    → IsTable orset
    → ((h : ℕ) → status_of orset h t ≡ 0)
    → (i h : ℕ) → tags h t (get_or orset.buckets i []) ≡ 0
tags_nowhere orset t table unknown i h = elim (Bool-cases (h % orset.num_buckets == i)) [
  | inl here ↦
      ap (λ j. tags h t (get_or orset.buckets j [])) (sym ((==_iff _ i).0 here))
      ∙ tags_none h t (chain_at orset h) (unknown h)
  | inr there ↦ ground (arith, table.placed i h t)
]

write_tag-Agrees :
    (written : Uid → List ℕ) (t : Uid) (bytes : List ℕ) (xs : List Entry)
    → ((h : ℕ) → tags h t xs ≡ 0)
    → Agrees written xs
    → Agrees (write_tag written t bytes) xs
write_tag-Agrees written t bytes [] absent agrees = tt
write_tag-Agrees written t bytes (e ∷ xs) absent agrees =
    let other : uid_equals e.tag t ≡ false = elim (Bool-cases (uid_equals e.tag t)) [
      | inl same ↦
          let hit : tagged e.hash t e ≡ true = rw (==_refl e.hash, same) refl in
          absurd (omega (arith, rw hit at (absent e.hash)))
      | inr differ ↦ differ
    ] in
    (
      (agrees.0.0 ∙ rw other refl, agrees.0.1),
      write_tag-Agrees written t bytes xs (λ h. omega (arith, absent h)) agrees.1,
    )

pub write_tag-IsWritten :
    (written : Uid → List ℕ) (t : Uid) (bytes : List ℕ) (orset : OrSet)
    → ((h : ℕ) → status_of orset h t ≡ 0)
    → IsWritten written orset
    → IsWritten (write_tag written t bytes) orset
write_tag-IsWritten written t bytes orset unknown w = record {
  table = w.table;
  agrees = λ i.
      write_tag-Agrees written t bytes (get_or orset.buckets i [])
        (tags_nowhere orset t w.table unknown i) (w.agrees i);
}

-- More additions, and what they wrote.
pub IsSound-mono :
    {written : Uid → List ℕ} {f g : ℕ → ℕ} {t : Uid} {orset : OrSet} (bytes : List ℕ)
    → ((j : ℕ) → f j ≤ g j)
    → f t.node_id < t.timestamp
    → IsSound written f orset
    → IsSound (write_tag written t bytes) g orset
IsSound-mono {written} {t} {orset} bytes le new s = record {
  content = write_tag-IsWritten written t bytes orset (λ h. s.old h t new) s.content;
  old = λ h u later. s.old h u (omega (arith, le u.node_id));
}

pub bump_le : (done : ℕ → ℕ) (i j : ℕ) → done j ≤ update done i (done i + 1) j
bump_le done i j = elim (Bool-cases (j == i)) [
  | inl same ↦ rw same (omega (arith, ap done ((==_iff j i).0 same)))
  | inr differ ↦ rw differ (omega arith)
]

-- The result of an addition under a new tag.
pub insert-IsSound :
    (written : Uid → List ℕ) (done : ℕ → ℕ) (orset c : OrSet) (i : ℕ) (bytes : List ℕ) (size : ℕ)
    → clock orset ≡ (i, done i)
    → done i + 1 < u64_mod
    → 0 < size
    → size ≤ length bytes
    → add granted (some orset) (some bytes) size ≡ (ok, some c)
    → IsSound written done orset
    → (done (next_tag orset).node_id < (next_tag orset).timestamp)
      × IsSound
          (write_tag written (next_tag orset) (take size bytes))
          (update done i (done i + 1))
          c
unfolding uid_create
insert-IsSound written done orset c i bytes size clocks fits any held run s =
    let t = next_tag orset in
    let node : orset.node_id ≡ i = ap (λ (p : ℕ × ℕ). p.0) clocks in
    let ts : orset.timestamp ≡ done i = ap (λ (p : ℕ × ℕ). p.1) clocks in
    let stamp : (orset.timestamp + 1) % u64_mod ≡ done i + 1 = omega (arith, ts) in
    let later : done orset.node_id < t.timestamp = omega (arith, stamp, ap done node) in
    let unknown = λ (h : ℕ). s.old h t later in
    let written' = write_tag written t (take size bytes) in
    let wrote : written' t ≡ take size bytes = rw (uid_equals_refl t) refl in
    let (c', run', content, knows) =
      add-status written' orset bytes size
        (write_tag-IsWritten written t (take size bytes) orset unknown s.content) any held wrote
        (unknown (hash_data bytes size)) in
    let same : c' ≡ c =
      some-injective _ _ (ap (λ (r : Result × Option OrSet). r.1) (sym run' ∙ run)) in
    let entry = entry_of orset bytes size in
    let fresh_share : (h : ℕ) (u : Uid)
        → update done i (done i + 1) u.node_id < u.timestamp
        → share h u entry ≡ 0 =
      λ h u after. elim (Bool-cases (tagged h u entry)) [
        | inl hit ↦
            let tag = (tagged_sound h u entry hit).1 in
            let here = ap (λ (v : Uid). v.node_id) tag in
            let now = ap (λ (v : Uid). v.timestamp) tag in
            let mine : u.node_id ≡ i = sym here ∙ node in
            absurd (ground (arith, after, mine, now, stamp))
        | inr miss ↦ rw miss refl
      ] in
    (
      later,
      subst (IsSound written' (update done i (done i + 1))) same (record {
        content = content;
        old = λ h u after.
            knows h u
            ∙ omega (
              arith,
              fresh_share h u after,
              s.old h u (omega (arith, after, bump_le done i u.node_id)),
            );
      }),
    )

pub erase-IsSound :
    (written : Uid → List ℕ) (done : ℕ → ℕ) (orset c : OrSet) (bytes : List ℕ) (size : ℕ)
    (res : Result)
    → 0 < size
    → remove (some orset) (some bytes) size ≡ (res, some c)
    → IsSound written done orset
    → IsSound written done c
erase-IsSound written done orset c bytes size res any run s =
    let same : buried written orset bytes size s.content any ≡ c = some-injective _ _ (
      ap (λ (r : Result × Option OrSet). r.1)
        (sym (remove-buried written orset bytes size s.content any) ∙ run)) in
    subst (IsSound written done) same (record {
      content = buried-IsWritten written orset bytes size s.content any;
      old =
          λ h t later. buried-unknown written orset bytes size s.content any h t (s.old h t later);
    })

pub receive-IsSound :
    (written : Uid → List ℕ) (done : ℕ → ℕ) (a b c : OrSet)
    → merge (λ k. granted) (some a) (some b) ≡ (ok, some c)
    → IsSound written done a
    → IsSound written done b
    → IsSound written done c
receive-IsSound written done a b c run sa sb =
    let (c', run', content, knows) = merge-status written a b sa.content sb.content in
    let same : c' ≡ c = some-injective _ _ (sym run' ∙ ap succeeded run) in
    subst (IsSound written done) same (record {
      content = content;
      old = λ h t later.
          ap (λ (f : Statuses). f h t) knows ∙ omega (arith, sa.old h t later, sb.old h t later);
    })

pub start-IsSound :
    (block c : OrSet) (capacity i : ℕ)
    → init true true (some block) capacity i ≡ (ok, some c)
    → IsSound (λ t. []) (λ j. 0) c
unfolding init
start-IsSound block c capacity i run =
    let buckets = if capacity == 0 then 16 else capacity in
    let some_bucket : 0 < buckets = ground arith in
    let empty = λ (j : ℕ). get_or-replicate {A = List Entry} buckets j [] in
    subst (IsSound (λ t. []) (λ j. 0))
      (some-injective _ _ (ap (λ (r : Result × Option OrSet). r.1) run))
      (record {
        content = record {
          table = record {
            width = length-replicate buckets [];
            some_bucket = some_bucket;
            placed = λ j h t. rw (empty j) (omega arith);
          };
          agrees = λ j. rw (empty j) tt;
        };
        old = λ h t later. rw (empty (h % buckets)) refl;
      })
