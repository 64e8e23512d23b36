-- ===== src/Api/Tests.antt =====
-- An example of the executor, with numbers as keys and prefixes.
use polkadot_introspector.Prelude.{ℕ, ◌≡◌, refl, none, some, [], ◌∷◌, nat_eq, ok}
use polkadot_introspector.Storage.Entry.{StorageEntry, RecordType}
use polkadot_introspector.Storage.Prefixed
use polkadot_introspector.Storage.Prefixed.{Prefixed}
use polkadot_introspector.Api.{Response, handle_prefixed, reply, reply_if}
use polkadot_introspector.Api.Executor.{
  ask, WriteResult, storage_write, storage_write_prefixed, storage_replace,
  storage_replace_prefixed, storage_read, storage_read_prefixed, storage_delete,
  storage_delete_prefixed, storage_len, storage_keys, storage_keys_prefix, storage_prefixes,
  as_read,
}

abbrev entry : StorageEntry
entry = record {
  record_type = RecordType.onchain;
  record_time = record { block_number = 10; timestamp = none };
  data_bytes = 1 ∷ [];
}

-- one key under prefix 5
abbrev one_key : Prefixed ℕ ℕ
one_key = record {
  config = record { max_blocks = 2 };
  last_block = some 10;
  ephemeral_records = (10, 1 ∷ []) ∷ [];
  prefixed_records = (5, (1, entry) ∷ []) ∷ [];
}

-- The calls served by the task of the prefixed storage.
served :
    let h = handle_prefixed {K = ℕ} {P = ℕ} in
    (storage_write h one_key 1 entry
      ≡ ok (
        (Prefixed.insert one_key 1 entry).0,
        WriteResult.answered (Prefixed.insert one_key 1 entry).1,
      ))
    × (storage_write_prefixed h one_key 5 1 entry
        ≡ ok (
          (Prefixed.insert_prefix one_key 5 1 entry).0,
          WriteResult.answered (Prefixed.insert_prefix one_key 5 1 entry).1,
        ))
    × (storage_replace h one_key 1 entry ≡ ok (Prefixed.replace one_key 1 entry).0)
    × (storage_replace_prefixed h one_key 5 1 entry
        ≡ ok (Prefixed.replace_prefixed one_key 5 1 entry).0)
    × (storage_read h one_key 1
        ≡ ok (one_key, as_read {K = ℕ} {P = ℕ} (Response.read (Prefixed.get one_key 1))))
    × (storage_read_prefixed h one_key 5 1
        ≡ ok (one_key, as_read {K = ℕ} {P = ℕ} (Response.read (Prefixed.get_prefix one_key 5 1))))
    × (storage_delete h one_key 1
        ≡ ok (
          (Prefixed.delete one_key 1).0,
          as_read {K = ℕ} {P = ℕ} (Response.read (Prefixed.delete one_key 1).1),
        ))
    × (storage_delete_prefixed h one_key 5 1
        ≡ ok (
          (Prefixed.delete_prefix one_key 5 1).0,
          as_read {K = ℕ} {P = ℕ} (Response.read (Prefixed.delete_prefix one_key 5 1).1),
        ))
    × (storage_len h one_key ≡ ok (one_key, Prefixed.len one_key))
    × (storage_keys h one_key ≡ ok (one_key, Prefixed.keys one_key))
    × (storage_keys_prefix h one_key 5 ≡ ok (one_key, Prefixed.prefixed_keys one_key 5))
    × (storage_prefixes h one_key ≡ ok (one_key, Prefixed.prefixes one_key))
unfolding ask storage_write storage_write_prefixed storage_replace storage_replace_prefixed
    storage_read storage_read_prefixed storage_delete storage_delete_prefixed storage_len
    storage_keys storage_keys_prefix storage_prefixes handle_prefixed reply reply_if
served = (refl, refl, refl, refl, refl, refl, refl, refl, refl, refl, refl, refl)
