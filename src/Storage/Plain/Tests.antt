-- ===== src/Storage/Plain/Tests.antt =====
-- Examples of the plain storage, with numbers as keys and two blocks at most.
use polkadot_introspector.Prelude.{ℕ, ◌≡◌, ◌↔◌, true, false, none, some, List, [], ◌∷◌, nat_eq}
use polkadot_introspector.Storage.Entry.{
  StorageEntry, RecordType, onchain, persistent, BlockNumber, RecordsStorageConfig, is_persistent,
  block_of,
}
use polkadot_introspector.Storage.Schedule.{listed}
use polkadot_introspector.Storage.Plain.{Plain, new, insert, get, delete}
use polkadot_introspector.Storage.Plain.Bounds.{IsValid}
use polkadot_introspector.Storage.Plain.History.{Step, Reach, history-IsValid, insert_all}
use polkadot_introspector.Storage.Plain.Drift.{insertions_exact}

abbrev two_blocks : RecordsStorageConfig
two_blocks = record { max_blocks = 2 }

abbrev entry_at : RecordType → BlockNumber → StorageEntry
entry_at t n = record {
  record_type = t;
  record_time = record { block_number = n; timestamp = none };
  data_bytes = n ∷ [];
}

-- blocks 10 and 11 with one key each, and a persistent key
abbrev full : Plain ℕ
full = record {
  config = two_blocks;
  last_block = some 11;
  ephemeral_records = (10, 1 ∷ []) ∷ (11, 2 ∷ []) ∷ [];
  direct_records =
      (1, entry_at onchain 10) ∷ (2, entry_at onchain 11) ∷ (9, entry_at persistent 10) ∷ [];
}

history-IsValid_example :
    IsValid {K = ℕ} (delete (insert (new two_blocks) 1 (entry_at onchain 10)).0 1).0
history-IsValid_example = history-IsValid two_blocks _ (
    Reach.next (Reach.next Reach.here (Step.inserting (new two_blocks) 1 (entry_at onchain 10)))
      (Step.deleting (insert (new two_blocks) 1 (entry_at onchain 10)).0 1))

-- three blocks go in, and the first goes out
abbrev three_entries : List (ℕ × StorageEntry)
three_entries = (1, entry_at onchain 10) ∷ (2, entry_at onchain 11) ∷ (3, entry_at onchain 12) ∷ []

insertions_exact_example :
    (listed 12 3 (insert_all (new two_blocks) three_entries).ephemeral_records ≡ true) ↔ (
      (x : StorageEntry) × (get (insert_all (new two_blocks) three_entries) 3 ≡ some x)
      × (is_persistent x ≡ false)
      × (block_of x ≡ 12))
insertions_exact_example = insertions_exact two_blocks three_entries 3 12

-- key 1 was deleted at block 10 and comes back at block 12
abbrev after_delete : Plain ℕ
after_delete = record full { direct_records = (2, entry_at onchain 11) ∷ [] }

abbrev two_entries : List (ℕ × StorageEntry)
two_entries = (1, entry_at onchain 10) ∷ (2, entry_at onchain 11) ∷ []

two_entries-IsValid : IsValid {K = ℕ} (insert_all (new two_blocks) two_entries)
unfolding insert_all
two_entries-IsValid =
    let s = new two_blocks in
    let s' = (insert s 1 (entry_at onchain 10)).0 in
    history-IsValid two_blocks _ (
      Reach.next (Reach.next Reach.here (Step.inserting s 1 (entry_at onchain 10)))
        (Step.inserting s' 2 (entry_at onchain 11)))
