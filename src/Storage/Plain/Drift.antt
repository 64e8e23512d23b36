-- ===== src/Storage/Plain/Drift.antt =====
-- Drift between the schedule and the records of the plain storage: insertions alone keep the two
-- in step, and a deletion does not.
use polkadot_introspector.Prelude.{
  ◌≡◌, ◌⊎◌, ◌↔◌, sym, ◌≤◌, ◌<◌, true, false, none, some, List, [], ◌∷◌, arith, Eq, length, is_some,
  contains, Option-cases, Bool-cases, inl, inr,
}
use polkadot_introspector.Storage.Entry.{
  BlockNumber, StorageEntry, RecordsStorageConfig, is_persistent, block_of, inserted,
}
use polkadot_introspector.Storage.Schedule.{
  Schedule, IsAscending, listed, has_block, expiring, pruned, listed-schedule, listed-has_block,
  listed-pruned_mono, expiring-schedule_newer, expiring-oldest, schedule-IsAscending,
}
use polkadot_introspector.Storage.Plain.{Plain, new, insert, get}
use polkadot_introspector.Storage.Plain.Reads.{get-insert, scheduled, insert-schedule}
use polkadot_introspector.Storage.Plain.History.{insert_all}
use polkadot_introspector.Storage.Plain.Bounds.{IsValid, new-IsValid, insert-IsValid}

module _ {ℓ} {K : Type ℓ} ⦃e : Eq K⦄ where
  -- Every scheduled key has a record, which expires with the block it is listed under.
  abbrev pub IsExact : Plain K → Type ℓ
  IsExact s =
      (b : BlockNumber) (k : K)
      → listed b k s.ephemeral_records ≡ true
      → (x : StorageEntry) × (get s k ≡ some x) × (is_persistent x ≡ false) × (block_of x ≡ b)

  -- A listing after an insertion is the inserted key's, or an old one, with its record.
  listed_cases :
      (s : Plain K) (j k : K) (y : StorageEntry) (b : BlockNumber)
      → IsExact s
      → listed b k (scheduled s j y) ≡ true
      → ((k ≡ j) × (b ≡ block_of y) × (is_persistent y ≡ false))
        ⊎ ((x : StorageEntry) × (get s k ≡ some x) × (is_persistent x ≡ false) × (block_of x ≡ b))
  listed_cases s j k y b exact h = elim (Bool-cases (listed b k s.ephemeral_records)) [
    | inl old ↦ inr (exact b k old)
    | inr fresh ↦
        inl (ground (arith, listed-schedule (block_of y) b j k s.ephemeral_records, e.decides k j))
  ]

  -- A key of an exact storage is listed in one block at most, also while it is inserted.
  one_block :
      (s : Plain K) (j k : K) (y : StorageEntry) (b c : BlockNumber)
      → IsExact s
      → get s j ≡ none
      → listed b k (scheduled s j y) ≡ true
      → listed c k (scheduled s j y) ≡ true
      → b ≡ c
  one_block s j k y b c exact free hb hc =
      ground (arith, listed_cases s j k y b exact hb, listed_cases s j k y c exact hc)

  scheduled-IsAscending :
      (s : Plain K) (j : K) (y : StorageEntry)
      → IsAscending s.ephemeral_records
      → IsAscending (scheduled s j y)
  scheduled-IsAscending s j y h =
      ground (arith, schedule-IsAscending (block_of y) j s.ephemeral_records)

  -- The blocks of an inserted key that expires and of one that stays differ.
  stays :
      (s : Plain K) (j k : K) (y : StorageEntry) (b : BlockNumber)
      → IsValid s
      → IsExact s
      → get s j ≡ none
      → listed b k (pruned s.max_blocks (scheduled s j y)) ≡ true
      → contains k (expiring s.max_blocks (scheduled s j y)) ≡ false
  stays s j k y b v exact free h =
      elim (Bool-cases (contains k (expiring s.max_blocks (scheduled s j y)))) [
        | inr kept ↦ kept
        | inl hit ↦
            let (c, at_c, below) =
              expiring-oldest s.max_blocks k (scheduled s j y)
                (scheduled-IsAscending s j y v.ascending) hit in
            let at_b = listed-pruned_mono s.max_blocks b k (scheduled s j y) h in
            absurd (
              omega (
                arith,
                below b (listed-has_block b k _ h),
                one_block s j k y b c exact free at_b at_c,
              ))
      ]

  insert-IsExact :
      (s : Plain K) (j : K) (y : StorageEntry) → IsValid s → IsExact s → IsExact (insert s j y).0
  insert-IsExact s j y v exact b k h = elim (Option-cases (get s j)) [
    | inr (old, found) ↦
        let same : (insert s j y).0.ephemeral_records ≡ s.ephemeral_records =
          ground (arith, insert-schedule s j y) in
        let (x, stored, lasts, at_b) = exact b k (rw same at h) in
        (x, ground (arith, (get-insert s j k y).1), lasts, at_b)
    | inl free ↦
        let gone : is_some (get s j) ≡ false = rw free in
        let listed_new : listed b k (pruned s.max_blocks (scheduled s j y)) ≡ true =
          ground (arith, insert-schedule s j y) in
        let kept = stays s j k y b v exact free listed_new in
        let there = listed-pruned_mono s.max_blocks b k (scheduled s j y) listed_new in
        elim (listed_cases s j k y b exact there) [
          | inl (own, at_b, lasts) ↦
              (y, ground (arith, (get-insert s j k y).1, e.decides j k), lasts, sym at_b)
          | inr (x, stored, lasts, at_b) ↦
              (x, ground (arith, (get-insert s j k y).1, e.decides j k), lasts, at_b)
        ]
  ]

  new-IsExact : (config : RecordsStorageConfig) → IsExact (new config)
  unfolding new listed
  new-IsExact config b k h = cc

  insert_all-IsExact :
      (ops : List (K × StorageEntry)) (s : Plain K)
      → IsValid s
      → IsExact s
      → IsValid (insert_all s ops) × IsExact (insert_all s ops)
  unfolding insert_all
  insert_all-IsExact [] s v x = (v, x)
  insert_all-IsExact ((k, y) ∷ ops) s v x =
      insert_all-IsExact ops (insert s k y).0 (insert-IsValid s k y v) (insert-IsExact s k y v x)

  -- After any insertions into the empty storage, a record that may expire can be read exactly
  -- while its key is listed under its block: the schedule and the records never drift apart.
  pub insertions_exact :
      (config : RecordsStorageConfig) (ops : List (K × StorageEntry)) (k : K) (b : BlockNumber)
      → let s = insert_all (new config) ops in
        (listed b k s.ephemeral_records ≡ true)
        ↔ ((x : StorageEntry) × (get s k ≡ some x) × (is_persistent x ≡ false) × (block_of x ≡ b))
  insertions_exact config ops k b =
      let (v, exact) =
        insert_all-IsExact ops (new config) (new-IsValid config) (new-IsExact config) in
      (exact b k, λ t. rw t.3 at (v.traced k t.0 t.1 t.2))

  -- In a storage without drift an insertion drops a record only if it may expire and its block is
  -- older than every block that stays scheduled.
  pub insert_drops_oldest :
      (s : Plain K) (j k : K) (x y : StorageEntry)
      → IsValid s
      → IsExact s
      → get s k ≡ some x
      → get (insert s j y).0 k ≡ none
      → (is_persistent x ≡ false)
        × ((b : BlockNumber)
            → has_block b (insert s j y).0.ephemeral_records ≡ true
            → block_of x < b)
  insert_drops_oldest s j k x y v exact stored dropped = elim (Option-cases (get s j)) [
    | inr (old, found) ↦ absurd (ground (arith, (get-insert s j k y).1))
    | inl free ↦
        let hit : contains k (expiring s.max_blocks (scheduled s j y)) ≡ true =
          ground (arith, (get-insert s j k y).1, e.decides j k) in
        let (c, at_c, below) =
          expiring-oldest s.max_blocks k (scheduled s j y) (scheduled-IsAscending s j y v.ascending)
            hit in
        let mine : (is_persistent x ≡ false) × (block_of x ≡ c) =
          ground (arith, listed_cases s j k y c exact at_c) in
        (mine.0, λ b hb. ground (arith, below b, insert-schedule s j y))
  ]

  -- Deleting a record leaves its key in the schedule. If that key is inserted again at a newer
  -- block, the pruning of the old block drops the new record: the insertion is accepted, and the
  -- key reads as missing at once if the schedule was full.
  pub insert_forgets_reinserted :
      (s : Plain K) (k : K) (x : StorageEntry) (c : BlockNumber) (ks : List K) (rest : Schedule K)
      → s.ephemeral_records ≡ (c, ks) ∷ rest
      → contains k ks ≡ true
      → get s k ≡ none
      → is_persistent x ≡ false
      → c < block_of x
      → has_block (block_of x) rest ≡ false
      → s.max_blocks ≤ length s.ephemeral_records
      → ((insert s k x).1 ≡ inserted) × (get (insert s k x).0 k ≡ none)
  insert_forgets_reinserted s k x c ks rest eph old missing lasts newer new_block full =
      let drops : expiring s.max_blocks (scheduled s k x) ≡ ks =
        rw (eph, lasts)
          (expiring-schedule_newer s.max_blocks (block_of x) c k ks rest newer new_block
            (rw eph at full)) in
      (ground (arith, (get-insert s k k x).0), ground (arith, (get-insert s k k x).1))
