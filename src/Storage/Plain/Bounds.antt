-- ===== src/Storage/Plain/Bounds.antt =====
-- The invariant of the plain storage: no more blocks are scheduled than the configuration allows,
-- and every record that is not persistent stands in the schedule, so that pruning will reach it.
use polkadot_introspector.Prelude.{
  ◌≡◌, ◌≤◌, ◌+◌, true, false, some, arith, Eq, length, is_some, Option-cases, Bool-cases, inl, inr,
}
use polkadot_introspector.Prelude.Assoc.{lookup, lookup-insert}
use polkadot_introspector.Storage.Entry.{
  StorageEntry, RecordsStorageConfig, is_persistent, block_of,
}
use polkadot_introspector.Storage.Schedule.{
  IsAscending, listed, listed-schedule, length-schedule, schedule-IsAscending, pruned-IsAscending,
  length-pruned, listed-pruned,
}
use polkadot_introspector.Storage.Plain.{
  Plain, new, prune, record_entry, insert, replace, get, delete,
}
use polkadot_introspector.Storage.Plain.Reads.{
  get-prune, get-delete, get-replace, insert_lem, replace-schedule, prune-schedule, prune-config,
}

module _ {ℓ} {K : Type ℓ} ⦃e : Eq K⦄ where
  -- Every record that may expire is scheduled under its own block.
  abbrev pub IsTraced : Plain K → Type ℓ
  IsTraced s =
      (k : K) (x : StorageEntry)
      → get s k ≡ some x
      → is_persistent x ≡ false
      → listed (block_of x) k s.ephemeral_records ≡ true

  pub record IsValid (s : Plain K) : Type ℓ where
    pub ascending : IsAscending s.ephemeral_records
    pub bounded : length s.ephemeral_records ≤ s.max_blocks
    pub traced : IsTraced s

  pub new-IsValid : (config : RecordsStorageConfig) → IsValid (new config)
  unfolding new get lookup
  new-IsValid config = record { ascending = tt; bounded = omega arith; traced = λ k x h n. cc }

  -- Pruning restores the bound from one block above it.
  pub prune-IsValid :
      (s : Plain K)
      → IsAscending s.ephemeral_records
      → length s.ephemeral_records ≤ s.max_blocks + 1
      → IsTraced s
      → IsValid (prune s)
  prune-IsValid s asc len traced = record {
    ascending = rw (prune-schedule s) (pruned-IsAscending s.max_blocks s.ephemeral_records asc);
    bounded =
        rw (prune-schedule s, prune-config s) (length-pruned s.max_blocks s.ephemeral_records len);
    traced = λ k x h n. rw (prune-schedule s) (
        ground (
          arith,
          get-prune s k,
          traced k x,
          listed-pruned s.max_blocks (block_of x) k s.ephemeral_records,
        ));
  }

  record_entry-IsTraced :
      (s : Plain K) (key : K) (entry : StorageEntry)
      → IsTraced s
      → IsTraced (record_entry s key entry)
  unfolding record_entry get
  record_entry-IsTraced s key entry traced k x h n = ground (
    arith,
    lookup-insert key k entry s.direct_records,
    traced k x,
    e.decides key k,
    e.decides k key,
    listed-schedule (block_of entry) (block_of x) key k s.ephemeral_records,
  )

  record_entry-IsAscending :
      (s : Plain K) (key : K) (entry : StorageEntry)
      → IsAscending s.ephemeral_records
      → IsAscending (record_entry s key entry).ephemeral_records
  unfolding record_entry
  record_entry-IsAscending s key entry h =
      ground (arith, schedule-IsAscending (block_of entry) key s.ephemeral_records)

  record_entry-length :
      (s : Plain K) (key : K) (entry : StorageEntry)
      → length s.ephemeral_records ≤ s.max_blocks
      → length (record_entry s key entry).ephemeral_records ≤ s.max_blocks + 1
  unfolding record_entry
  record_entry-length s key entry h =
      ground (arith, length-schedule (block_of entry) key s.ephemeral_records)

  -- An insertion keeps the invariant on every branch.
  pub insert-IsValid :
      (s : Plain K) (key : K) (entry : StorageEntry) → IsValid s → IsValid (insert s key entry).0
  unfolding insert
  insert-IsValid s key entry v = elim (Bool-cases (is_some (get s key))) [
    | inl old ↦ rw (insert_lem s key entry, old) v
    | inr new ↦
        rw (insert_lem s key entry, new)
          (prune-IsValid (record_entry s key entry)
            (record_entry-IsAscending s key entry v.ascending)
            (record_entry-length s key entry v.bounded)
            (record_entry-IsTraced s key entry v.traced))
  ]

  pub delete-IsValid : (s : Plain K) (key : K) → IsValid s → IsValid (delete s key).0
  unfolding delete
  delete-IsValid s key v = record {
    ascending = v.ascending;
    bounded = v.bounded;
    traced = λ k x h n. ground (arith, get-delete s key k, v.traced k x);
  }

  -- A replacement keeps the invariant if the new entry is persistent or has the old one's block.
  pub replace-IsValid :
      (s : Plain K) (key : K) (entry : StorageEntry)
      → ((old : StorageEntry)
          → get s key ≡ some old
          → is_persistent entry ≡ false
          → (is_persistent old ≡ false) × (block_of old ≡ block_of entry))
      → IsValid s
      → IsValid (replace s key entry).0
  replace-IsValid s key entry like v = record {
    ascending = rw (replace-schedule s key entry).0 v.ascending;
    bounded = rw ((replace-schedule s key entry).0, (replace-schedule s key entry).1) v.bounded;
    traced = λ k x h n. rw (replace-schedule s key entry).0 (elim (Option-cases (get s key)) [
      | inl missing ↦ ground (arith, (get-replace s key k entry).1, v.traced k x)
      | inr (old, found) ↦ ground (
        arith,
        (get-replace s key k entry).1,
        like old found,
        v.traced k x,
        v.traced key old,
        e.decides key k,
      )
    ]);
  }
