-- ===== src/Storage/Prefixed.antt =====
-- `HashedPrefixedRecordsStorage` of essentials/src/storage.rs, with the methods of
-- `RecordsStorage` and of `PrefixedRecordsStorage`.
pub mod Reads
pub mod Bounds
pub mod Search
mod Tests
use polkadot_introspector.Prelude.{
  ℕ, ◌+◌, ◌≡◌, Bool, true, false, Option, none, some, List, [], ◌∷◌, ◌++◌, Eq, ltb, if◌then◌else◌,
  length, is_some, and_then, unwrap_or,
}
use polkadot_introspector.Prelude.Assoc.{
  lookup, insert as insert_record, remove, contains_key, keys as record_keys, map_values,
}
use polkadot_introspector.Storage.Entry.{
  StorageEntry, BlockNumber, RecordsStorageConfig, InsertResult, inserted, duplicate_key,
  missing_prefix, block_of,
}
use polkadot_introspector.Storage.Schedule.{Schedule, schedule}
use polkadot_introspector.Storage.Plain.{remove_all}

abbrev pub Records {ℓ} : Type ℓ → Type ℓ
Records K = List (K × StorageEntry)

pub record Prefixed {ℓ κ} (K : Type ℓ) (P : Type κ) : Type (ℓ ⊔ κ) where
  pub config : RecordsStorageConfig
  pub open config use *
  pub last_block : Option BlockNumber
  pub ephemeral_records : Schedule K
  pub prefixed_records : List (P × Records K)

module _ {ℓ κ} {K : Type ℓ} {P : Type κ} ⦃e : Eq K⦄ ⦃d : Eq P⦄ where
  unfoldable pub new : RecordsStorageConfig → Prefixed K P
  new config = record {
    config = config;
    last_block = none;
    ephemeral_records = [];
    prefixed_records = [];
  }

  unfoldable pub drop_oldest : Prefixed K P → Schedule K → Prefixed K P
  drop_oldest s [] = s
  drop_oldest s ((oldest_block, entries) ∷ rest) = record s {
    ephemeral_records = rest;
    prefixed_records = map_values (remove_all entries) s.prefixed_records;
  }

  unfoldable pub prune : Prefixed K P → Prefixed K P
  unfolding drop_oldest
  prune s =
      if ltb s.max_blocks (length s.ephemeral_records) then drop_oldest s s.ephemeral_records else s

  -- A key with no prefix cannot be inserted.
  unfoldable pub insert : Prefixed K P → K → StorageEntry → Prefixed K P × InsertResult K
  insert s key entry = (s, missing_prefix key)

  -- The first map that has the key gets the entry.
  unfoldable pub replace_first :
      K → StorageEntry → List (P × Records K) → List (P × Records K) × Option StorageEntry
  replace_first key entry [] = ([], none)
  replace_first key entry ((p, m) ∷ rest) =
      let (rest', old) = replace_first key entry rest in
      elim (lookup key m) [
        | none ↦ ((p, m) ∷ rest', old)
        | some found ↦ ((p, insert_record key entry m) ∷ rest, some found)
      ]

  unfoldable pub replace : Prefixed K P → K → StorageEntry → Prefixed K P × Option StorageEntry
  unfolding replace_first
  replace s key entry =
      let (records, old) = replace_first key entry s.prefixed_records in
      (record s { prefixed_records = records }, old)

  unfoldable pub find_first : K → List (P × Records K) → Option StorageEntry
  find_first key [] = none
  find_first key ((p, m) ∷ rest) = elim (lookup key m) [
    | none ↦ find_first key rest
    | some x ↦ some x
  ]

  unfoldable pub get : Prefixed K P → K → Option StorageEntry
  unfolding find_first
  get s key = find_first key s.prefixed_records

  unfoldable pub delete_first :
      K → List (P × Records K) → List (P × Records K) × Option StorageEntry
  delete_first key [] = ([], none)
  delete_first key ((p, m) ∷ rest) =
      let (rest', old) = delete_first key rest in
      elim (lookup key m) [
        | none ↦ ((p, m) ∷ rest', old)
        | some found ↦ ((p, remove key m) ∷ rest, some found)
      ]

  unfoldable pub delete : Prefixed K P → K → Prefixed K P × Option StorageEntry
  unfolding delete_first
  delete s key =
      let (records, old) = delete_first key s.prefixed_records in
      (record s { prefixed_records = records }, old)

  unfoldable pub sum_lengths : List (P × Records K) → ℕ
  sum_lengths [] = 0
  sum_lengths ((p, m) ∷ rest) = length m + sum_lengths rest

  unfoldable pub len : Prefixed K P → ℕ
  unfolding sum_lengths
  len s = sum_lengths s.prefixed_records

  unfoldable pub all_keys : List (P × Records K) → List K
  all_keys [] = []
  all_keys ((p, m) ∷ rest) = record_keys m ++ all_keys rest

  unfoldable pub keys : Prefixed K P → List K
  unfolding all_keys
  keys s = all_keys s.prefixed_records

  unfoldable pub get_prefix : Prefixed K P → P → K → Option StorageEntry
  get_prefix s prefix key = and_then (lookup prefix s.prefixed_records) (lookup key)

  -- `self.prefixed_records.entry(prefix).or_default()`
  unfoldable pub direct_storage : Prefixed K P → P → Records K
  direct_storage s prefix = unwrap_or (lookup prefix s.prefixed_records) []

  unfoldable pub record_entry : Prefixed K P → P → K → StorageEntry → Prefixed K P
  unfolding direct_storage
  record_entry s prefix key entry = record s {
    last_block = some (block_of entry);
    prefixed_records =
        insert_record prefix (insert_record key entry (direct_storage s prefix)) s.prefixed_records;
    ephemeral_records = schedule (block_of entry) key s.ephemeral_records;
  }

  -- A duplicate is found under a prefix that is there, so `or_default` adds no map for it.
  unfoldable pub insert_prefix : Prefixed K P → P → K → StorageEntry → Prefixed K P × InsertResult K
  unfolding record_entry direct_storage prune
  insert_prefix s prefix key entry =
      if contains_key key (direct_storage s prefix)
      then (s, duplicate_key key)
      else (prune (record_entry s prefix key entry), inserted)

  unfoldable pub replace_prefixed :
      Prefixed K P → P → K → StorageEntry → Prefixed K P × Option StorageEntry
  replace_prefixed s prefix key entry = elim (lookup prefix s.prefixed_records) [
    | none ↦ (s, none)
    | some m ↦ elim (lookup key m) [
      | none ↦ (s, none)
      | some old ↦ (
        record s {
          prefixed_records = insert_record prefix (insert_record key entry m) s.prefixed_records;
        },
        some old,
      )
    ]
  ]

  unfoldable pub delete_prefix : Prefixed K P → P → K → Prefixed K P × Option StorageEntry
  delete_prefix s prefix key = elim (lookup prefix s.prefixed_records) [
    | none ↦ (s, none)
    | some m ↦ (
      record s { prefixed_records = insert_record prefix (remove key m) s.prefixed_records },
      lookup key m,
    )
  ]

  unfoldable pub prefixed_keys : Prefixed K P → P → List K
  prefixed_keys s prefix = elim (lookup prefix s.prefixed_records) [
    | none ↦ []
    | some m ↦ record_keys m
  ]

  unfoldable pub prefixes : Prefixed K P → List P
  prefixes s = record_keys s.prefixed_records
