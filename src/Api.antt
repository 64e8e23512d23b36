-- ===== src/Api.antt =====
-- essentials/src/api/storage.rs: the task that owns a storage, and the handle through which the other
-- tasks reach it. A request goes to the task over a channel and the reply comes back over another, so
-- a call is one step of the task. The caller waits for the reply, so that sending it never fails.
pub mod Executor
mod Tests
use polkadot_introspector.Prelude.{
  ℕ, ◌≡◌, Bool, true, false, Option, none, some, List, [], ◌∷◌, Eq, Outcome, ok, panic, ◌>>=◌,
  if◌then◌else◌,
}
use polkadot_introspector.Storage.Entry.{StorageEntry, InsertResult}
use polkadot_introspector.Storage.Plain
use polkadot_introspector.Storage.Plain.{Plain}
use polkadot_introspector.Storage.Prefixed
use polkadot_introspector.Storage.Prefixed.{Prefixed}

pub data RequestType {ℓ κ} (K : Type ℓ) (P : Type κ) : Type (ℓ ⊔ κ) where
  write : K → StorageEntry → RequestType K P
  write_prefix : P → K → StorageEntry → RequestType K P
  read : K → RequestType K P
  read_prefix : P → K → RequestType K P
  delete : K → RequestType K P
  delete_prefix : P → K → RequestType K P
  replace : K → StorageEntry → RequestType K P
  replace_prefix : P → K → StorageEntry → RequestType K P
  size keys prefixes : RequestType K P
  keys_with_prefix : P → RequestType K P

-- `has_sender` is whether `response_sender` is there.
pub record Request {ℓ κ} (K : Type ℓ) (P : Type κ) : Type (ℓ ⊔ κ) where
  pub request_type : RequestType K P
  pub has_sender : Bool

pub data Response {ℓ κ} (K : Type ℓ) (P : Type κ) : Type (ℓ ⊔ κ) where
  read : Option StorageEntry → Response K P
  size : ℕ → Response K P
  keys : List K → Response K P
  prefixes : List P → Response K P
  status : InsertResult K → Response K P

-- `request.response_sender.expect("no sender provided")`
unfoldable pub reply {ℓ κ} : {S : Type ℓ} {R : Type κ} → Bool → S → R → Outcome (S × Option R)
reply has_sender s r = if has_sender then ok (s, some r) else panic

-- `if let Some(sender) = request.response_sender`
unfoldable pub reply_if {ℓ κ} : {S : Type ℓ} {R : Type κ} → Bool → S → R → Outcome (S × Option R)
reply_if has_sender s r = ok (s, if has_sender then some r else none)

module _ {ℓ κ} {K : Type ℓ} {P : Type κ} ⦃e : Eq K⦄ ⦃d : Eq P⦄ where
  -- One round of `api_handler_task`; the keys with no prefix alone are served.
  unfoldable pub handle_plain :
      Plain K → Bool → RequestType K P → Outcome (Plain K × Option (Response K P))
  handle_plain s sender (RequestType.read k) = reply sender s (Response.read (Plain.get s k))
  handle_plain s sender (RequestType.delete k) =
      let (s', old) = Plain.delete s k in reply sender s' (Response.read old)
  handle_plain s sender (RequestType.write k x) =
      let (s', res) = Plain.insert s k x in reply_if sender s' (Response.status res)
  handle_plain s sender (RequestType.replace k x) =
      let (s', old) = Plain.replace s k x in reply_if sender s' (Response.read old)
  handle_plain s sender RequestType.size = reply sender s (Response.size (Plain.len s))
  handle_plain s sender RequestType.keys = reply sender s (Response.keys (Plain.keys s))
  handle_plain s sender RequestType.prefixes = panic
  handle_plain s sender (RequestType.keys_with_prefix p) = panic
  handle_plain s sender (RequestType.write_prefix p k x) = panic
  handle_plain s sender (RequestType.read_prefix p k) = panic
  handle_plain s sender (RequestType.delete_prefix p k) = panic
  handle_plain s sender (RequestType.replace_prefix p k x) = panic

  -- One round of `api_handler_task_prefixed`.
  unfoldable pub handle_prefixed :
      Prefixed K P → Bool → RequestType K P → Outcome (Prefixed K P × Option (Response K P))
  handle_prefixed s sender (RequestType.read k) = reply sender s (Response.read (Prefixed.get s k))
  handle_prefixed s sender (RequestType.delete k) =
      let (s', old) = Prefixed.delete s k in reply sender s' (Response.read old)
  handle_prefixed s sender (RequestType.write k x) =
      let (s', res) = Prefixed.insert s k x in reply_if sender s' (Response.status res)
  handle_prefixed s sender (RequestType.replace k x) =
      let (s', old) = Prefixed.replace s k x in reply_if sender s' (Response.read old)
  handle_prefixed s sender RequestType.size = reply sender s (Response.size (Prefixed.len s))
  handle_prefixed s sender RequestType.keys = reply sender s (Response.keys (Prefixed.keys s))
  handle_prefixed s sender (RequestType.keys_with_prefix p) =
      reply sender s (Response.keys (Prefixed.prefixed_keys s p))
  handle_prefixed s sender RequestType.prefixes =
      reply sender s (Response.prefixes (Prefixed.prefixes s))
  handle_prefixed s sender (RequestType.write_prefix p k x) =
      let (s', res) = Prefixed.insert_prefix s p k x in reply_if sender s' (Response.status res)
  handle_prefixed s sender (RequestType.read_prefix p k) =
      reply sender s (Response.read (Prefixed.get_prefix s p k))
  handle_prefixed s sender (RequestType.delete_prefix p k) =
      let (s', old) = Prefixed.delete_prefix s p k in reply sender s' (Response.read old)
  handle_prefixed s sender (RequestType.replace_prefix p k x) =
      let (s', old) = Prefixed.replace_prefixed s p k x in reply_if sender s' (Response.read old)
