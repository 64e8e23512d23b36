-- ===== src/Storage/Prefixed/Tests.antt =====
-- Examples of the prefixed storage, with numbers as keys and prefixes and two blocks at most.
use polkadot_introspector.Prelude.Assoc.{lookup}
use polkadot_introspector.Prelude.{ℕ, ◌≡◌, refl, none, some, [], ◌∷◌, nat_eq, arith, contains}
use polkadot_introspector.Storage.Entry.{
  StorageEntry, RecordType, onchain, persistent, BlockNumber, RecordsStorageConfig,
}
use polkadot_introspector.Storage.Schedule.{has_block}
use polkadot_introspector.Storage.Prefixed.{Prefixed, insert_prefix, get_prefix}
use polkadot_introspector.Storage.Prefixed.Bounds.{persistent_expires}

abbrev two_blocks : RecordsStorageConfig
two_blocks = record { max_blocks = 2 }

abbrev entry_at : RecordType → BlockNumber → StorageEntry
entry_at t n = record {
  record_type = t;
  record_time = record { block_number = n; timestamp = none };
  data_bytes = n ∷ [];
}

-- prefix 5 has a persistent key of block 10, prefix 6 a key of block 11
abbrev full : Prefixed ℕ ℕ
full = record {
  config = two_blocks;
  last_block = some 11;
  ephemeral_records = (10, 1 ∷ []) ∷ (11, 2 ∷ []) ∷ [];
  prefixed_records =
      (5, (1, entry_at persistent 10) ∷ []) ∷ (6, (2, entry_at onchain 11) ∷ []) ∷ [];
}

persistent_expires_example : get_prefix (insert_prefix full 6 3 (entry_at onchain 12)).0 5 1 ≡ none
unfolding get_prefix contains has_block lookup
persistent_expires_example =
    persistent_expires full 6 3 (entry_at onchain 12) 5 1 10 (1 ∷ []) ((11, 2 ∷ []) ∷ []) refl refl
      refl (omega arith) refl (omega arith)
