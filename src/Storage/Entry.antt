-- ===== src/Storage/Entry.antt =====
-- `StorageEntry` and its parts. SCALE encoding comes from a library: an entry's constructors and
-- `into_inner` take it as a `Codec`.
use polkadot_introspector.Prelude.{ℕ, Bool, true, false, Option, none, some, List}

pub data RecordType : Type 0 where
  onchain offchain persistent : RecordType

abbrev pub BlockNumber : Type 0
BlockNumber = ℕ

-- `timestamp` is a duration in milliseconds.
pub record RecordTime : Type 0 where
  pub block_number : BlockNumber
  pub timestamp : Option ℕ

pub record StorageEntry : Type 0 where
  pub record_type : RecordType
  pub record_time : RecordTime
  pub data_bytes : List ℕ

-- `impl From<BlockNumber> for RecordTime`
unfoldable pub from_block : BlockNumber → RecordTime
from_block n = record { block_number = n; timestamp = none }

-- `RecordTime::with_ts`
unfoldable pub with_ts : BlockNumber → ℕ → RecordTime
with_ts n ts = record { block_number = n; timestamp = some ts }

-- The derived `Encode` and `Decode` of a type.
pub record Codec (T : Type 0) : Type 0 where
  pub encode : T → List ℕ
  pub decode : List ℕ → Option T

module _ {T : Type 0} (c : Codec T) where
  unfoldable pub new_onchain : RecordTime → T → StorageEntry
  new_onchain time t = record { record_type = onchain; record_time = time; data_bytes = c.encode t }

  unfoldable pub new_offchain : RecordTime → T → StorageEntry
  new_offchain time t = record {
    record_type = offchain;
    record_time = time;
    data_bytes = c.encode t;
  }

  unfoldable pub new_persistent : RecordTime → T → StorageEntry
  new_persistent time t = record {
    record_type = persistent;
    record_time = time;
    data_bytes = c.encode t;
  }

  -- `None` is the decode error.
  unfoldable pub into_inner : StorageEntry → Option T
  into_inner entry = c.decode entry.data_bytes

abbrev pub is_persistent_type : RecordType → Bool
is_persistent_type persistent = true
is_persistent_type _ = false

abbrev pub is_persistent : StorageEntry → Bool
is_persistent entry = is_persistent_type entry.record_type

-- `entry.time().block_number()`
abbrev pub block_of : StorageEntry → BlockNumber
block_of entry = entry.record_time.block_number

-- `RecordsStorageConfig`
pub record RecordsStorageConfig : Type 0 where
  pub max_blocks : ℕ

-- The result of an insertion: `Ok(())`, or the report for a key.
pub data InsertResult {ℓ} (K : Type ℓ) : Type ℓ where
  inserted : InsertResult K
  duplicate_key : K → InsertResult K
  missing_prefix : K → InsertResult K
