-- ===== src/Storage/Plain.antt =====
-- `HashedPlainRecordsStorage` of essentials/src/storage.rs, with its `RecordsStorage` methods.
-- A method that takes `&mut self` returns the new storage beside its result.
pub mod Reads
pub mod Bounds
pub mod History
pub mod Drift
mod Tests
use polkadot_introspector.Prelude.{
  ℕ, ◌≡◌, Bool, true, false, Option, none, some, List, [], ◌∷◌, Eq, ltb, if◌then◌else◌, length,
  is_some,
}
use polkadot_introspector.Prelude.Assoc.{
  lookup, insert as insert_record, remove, contains_key, keys as record_keys,
}
use polkadot_introspector.Storage.Entry.{
  StorageEntry, BlockNumber, RecordsStorageConfig, InsertResult, inserted, duplicate_key, block_of,
  is_persistent,
}
use polkadot_introspector.Storage.Schedule.{Schedule, schedule}

pub record Plain {ℓ} (K : Type ℓ) : Type ℓ where
  pub config : RecordsStorageConfig
  pub open config use *
  pub last_block : Option BlockNumber
  pub ephemeral_records : Schedule K
  pub direct_records : List (K × StorageEntry)

module _ {ℓ} {K : Type ℓ} ⦃e : Eq K⦄ where
  -- `for key in entries.iter() { self.direct_records.remove(key); }`
  unfoldable pub remove_all {κ} : {V : Type κ} → List K → List (K × V) → List (K × V)
  remove_all [] m = m
  remove_all (k ∷ ks) m = remove_all ks (remove k m)

  unfoldable pub new : RecordsStorageConfig → Plain K
  new config = record {
    config = config;
    last_block = none;
    ephemeral_records = [];
    direct_records = [];
  }

  -- The `unwrap` of the first block is safe: the map has more than `max_blocks` blocks.
  unfoldable pub drop_oldest : Plain K → Schedule K → Plain K
  drop_oldest s [] = s
  drop_oldest s ((oldest_block, entries) ∷ rest) = record s {
    ephemeral_records = rest;
    direct_records = remove_all entries s.direct_records;
  }

  unfoldable pub prune : Plain K → Plain K
  unfolding drop_oldest
  prune s =
      if ltb s.max_blocks (length s.ephemeral_records) then drop_oldest s s.ephemeral_records else s

  unfoldable pub record_entry : Plain K → K → StorageEntry → Plain K
  record_entry s key entry = record s {
    last_block = some (block_of entry);
    direct_records = insert_record key entry s.direct_records;
    ephemeral_records =
        if is_persistent entry
        then s.ephemeral_records
        else schedule (block_of entry) key s.ephemeral_records;
  }

  unfoldable pub insert : Plain K → K → StorageEntry → Plain K × InsertResult K
  unfolding record_entry prune
  insert s key entry =
      if contains_key key s.direct_records
      then (s, duplicate_key key)
      else (prune (record_entry s key entry), inserted)

  -- `None` stands for a missing key, and then nothing changes.
  unfoldable pub replace : Plain K → K → StorageEntry → Plain K × Option StorageEntry
  replace s key entry = elim (lookup key s.direct_records) [
    | none ↦ (s, none)
    | some old ↦ (record s { direct_records = insert_record key entry s.direct_records }, some old)
  ]

  unfoldable pub get : Plain K → K → Option StorageEntry
  get s key = lookup key s.direct_records

  unfoldable pub delete : Plain K → K → Plain K × Option StorageEntry
  delete s key =
      (record s { direct_records = remove key s.direct_records }, lookup key s.direct_records)

  unfoldable pub len : Plain K → ℕ
  len s = length s.direct_records

  unfoldable pub keys : Plain K → List K
  keys s = record_keys s.direct_records
