-- ===== src/Api/Executor.antt =====
-- `RequestExecutor` of essentials/src/api/storage.rs: what a caller sees of the task behind it, which
-- is a parameter.
use polkadot_introspector.Prelude.{
  refl, ◌≡◌, ℕ, Bool, true, false, Option, none, some, List, Outcome, ok, panic, ◌>>=◌, expect,
}
use polkadot_introspector.Storage.Entry.{StorageEntry, InsertResult}
use polkadot_introspector.Api.{RequestType, Response}

-- The result of a write: the storage's, or the error of a reply of another kind.
pub data WriteResult {ℓ} (K : Type ℓ) : Type ℓ where
  answered : InsertResult K → WriteResult K
  invalid_response : WriteResult K

module _ {ℓ κ} {K : Type ℓ} {P : Type κ} where
  abbrev pub as_status : Response K P → WriteResult K
  as_status (Response.status res) = WriteResult.answered res
  as_status _ = WriteResult.invalid_response

  -- A reply with no value and one of another kind both read as `None`.
  abbrev pub as_read : Response K P → Option StorageEntry
  as_read (Response.read (some value)) = some value
  as_read _ = none

  abbrev pub as_size : Response K P → Outcome ℕ
  as_size (Response.size n) = ok n
  as_size _ = panic

  abbrev pub as_keys : Response K P → Outcome (List K)
  as_keys (Response.keys ks) = ok ks
  as_keys _ = panic

  abbrev pub as_prefixes : Response K P → Outcome (List P)
  as_prefixes (Response.prefixes ps) = ok ps
  as_prefixes _ = panic

  module _ {S : Type (ℓ ⊔ κ)}
      (handle : S → Bool → RequestType K P → Outcome (S × Option (Response K P))) where
    -- Send a request with a sender and wait for the reply.
    unfoldable pub ask : S → RequestType K P → Outcome (S × Response K P)
    ask s request = do
      served ← handle s true request
      response ← expect served.1
      ok (served.0, response)

    unfoldable pub storage_write : S → K → StorageEntry → Outcome (S × WriteResult K)
    storage_write s key value = do
      served ← ask s (RequestType.write key value)
      ok (served.0, as_status served.1)

    unfoldable pub storage_write_prefixed : S → P → K → StorageEntry → Outcome (S × WriteResult K)
    storage_write_prefixed s prefix key value = do
      served ← ask s (RequestType.write_prefix prefix key value)
      ok (served.0, as_status served.1)

    unfoldable pub storage_replace : S → K → StorageEntry → Outcome S
    storage_replace s key value = do
      served ← handle s false (RequestType.replace key value)
      ok served.0

    unfoldable pub storage_replace_prefixed : S → P → K → StorageEntry → Outcome S
    storage_replace_prefixed s prefix key value = do
      served ← handle s false (RequestType.replace_prefix prefix key value)
      ok served.0

    unfoldable pub storage_read : S → K → Outcome (S × Option StorageEntry)
    storage_read s key = do served ← ask s (RequestType.read key); ok (served.0, as_read served.1)

    unfoldable pub storage_read_prefixed : S → P → K → Outcome (S × Option StorageEntry)
    storage_read_prefixed s prefix key = do
      served ← ask s (RequestType.read_prefix prefix key)
      ok (served.0, as_read served.1)

    unfoldable pub storage_delete : S → K → Outcome (S × Option StorageEntry)
    storage_delete s key = do
      served ← ask s (RequestType.delete key)
      ok (served.0, as_read served.1)

    unfoldable pub storage_delete_prefixed : S → P → K → Outcome (S × Option StorageEntry)
    storage_delete_prefixed s prefix key = do
      served ← ask s (RequestType.delete_prefix prefix key)
      ok (served.0, as_read served.1)

    unfoldable pub storage_len : S → Outcome (S × ℕ)
    storage_len s = do served ← ask s RequestType.size; n ← as_size served.1; ok (served.0, n)

    unfoldable pub storage_keys : S → Outcome (S × List K)
    storage_keys s = do served ← ask s RequestType.keys; ks ← as_keys served.1; ok (served.0, ks)

    unfoldable pub storage_keys_prefix : S → P → Outcome (S × List K)
    storage_keys_prefix s prefix = do
      served ← ask s (RequestType.keys_with_prefix prefix)
      ks ← as_keys served.1
      ok (served.0, ks)

    unfoldable pub storage_prefixes : S → Outcome (S × List P)
    storage_prefixes s = do
      served ← ask s RequestType.prefixes
      ps ← as_prefixes served.1
      ok (served.0, ps)

pub as_read-read {ℓ κ} :
    (K : Type ℓ) (P : Type κ) (v : Option StorageEntry)
    → as_read {K = K} {P = P} (Response.read v) ≡ v
as_read-read K P none = refl
as_read-read K P (some x) = refl
