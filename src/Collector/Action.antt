-- ===== src/Collector/Action.antt =====
-- A method of the collector: it changes the collector and returns, fails or panics. What was changed
-- stays changed when it fails.
use polkadot_introspector.Prelude.{
  Bool, true, false, Option, none, some, Outcome, ok, panic, nat_eq,
}
use polkadot_introspector.Api
use polkadot_introspector.Api.Executor
use polkadot_introspector.Api.Executor.{WriteResult}
use polkadot_introspector.Storage.Entry.{StorageEntry, InsertResult}
use polkadot_introspector.Storage.Prefixed.{Prefixed}
use polkadot_introspector.Tracker.BlockInfo.{H256}
use polkadot_introspector.Tracker.Records.{CollectorPrefixType, prefix_eq}
use polkadot_introspector.Collector.Types.{Collector, CollectorState, CollectorError}

pub data Result (A : Type 0) : Type 0 where
  done : A → Result A
  failed : CollectorError → Result A
  panicked : Result A

abbrev pub Action : Type 0 → Type 0
Action A = Collector → Result A × Collector

module _ {A : Type 0} where
  unfoldable pub pure : A → Action A
  pure a c = (Result.done a, c)

  unfoldable pub fail : CollectorError → Action A
  fail e c = (Result.failed e, c)

  unfoldable pub gets : (Collector → A) → Action A
  gets f c = (Result.done (f c), c)

  -- `?` on what another part of the program returned
  unfoldable pub or_fail : Option A → CollectorError → Action A
  or_fail none e c = (Result.failed e, c)
  or_fail (some a) e c = (Result.done a, c)

  -- `expect` and `unwrap`
  unfoldable pub or_panic : Option A → Action A
  or_panic none c = (Result.panicked, c)
  or_panic (some a) c = (Result.done a, c)

-- The rest of a method, by how the call before it ended.
abbrev pub continue : {A B : Type 0} → Result A → (A → Action B) → Action B
continue (Result.done a) f c = f a c
continue (Result.failed e) f c = (Result.failed e, c)
continue Result.panicked f c = (Result.panicked, c)

infixl 5 ◌>>=◌ ◌>>◌
unfoldable pub ◌>>=◌ : {A B : Type 0} → Action A → (A → Action B) → Action B
◌>>=◌ m f c = let (r, c') = m c in continue r f c'

unfoldable pub ◌>>◌ : {B : Type 0} → Action (Unit {0}) → Action B → Action B
unfolding ◌>>=◌
m >> k = m >>= λ _. k

unfoldable pub modify : (Collector → Collector) → Action (Unit {0})
modify f c = (Result.done tt, f c)

unfoldable pub modify_state : (CollectorState → CollectorState) → Action (Unit {0})
modify_state f c = (Result.done tt, record c { state = f c.state })

-- `if` with nothing to do otherwise
unfoldable pub when : Bool → Action (Unit {0}) → Action (Unit {0})
when true m c = m c
when false m c = (Result.done tt, c)

-- `if let Some(a) = o` with its `else`, the other way round
unfoldable pub if_none : {A B : Type 0} → Option A → Action B → (A → Action B) → Action B
if_none none m f c = m c
if_none (some a) m f c = f a c

abbrev pub Records : Type 0
Records = Prefixed H256 CollectorPrefixType

-- The reply of the storage's task, and the storage after it.
abbrev pub answer : {A B : Type 0} → Outcome (Records × A) → (A → Result B) → Action B
answer panic f c = (Result.panicked, c)
answer (ok r) f c = (f r.1, record c { storage = r.0 })

abbrev pub no_answer : Outcome Records → Action (Unit {0})
no_answer panic c = (Result.panicked, c)
no_answer (ok s) c = (Result.done tt, record c { storage = s })

abbrev pub written : WriteResult H256 → Result (Unit {0})
written (WriteResult.answered InsertResult.inserted) = Result.done tt
written _ = Result.failed CollectorError.non_fatal

-- A call of the storage's task.
unfoldable pub storage_read_prefixed : CollectorPrefixType → H256 → Action (Option StorageEntry)
storage_read_prefixed p k c =
    answer (Executor.storage_read_prefixed Api.handle_prefixed c.storage p k) Result.done c

unfoldable pub storage_write_prefixed :
    CollectorPrefixType → H256 → StorageEntry → Action (Unit {0})
storage_write_prefixed p k v c =
    answer (Executor.storage_write_prefixed Api.handle_prefixed c.storage p k v) written c

unfoldable pub storage_replace_prefixed :
    CollectorPrefixType → H256 → StorageEntry → Action (Unit {0})
storage_replace_prefixed p k v c =
    no_answer (Executor.storage_replace_prefixed Api.handle_prefixed c.storage p k v) c

unfoldable pub storage_delete_prefixed : CollectorPrefixType → H256 → Action (Option StorageEntry)
storage_delete_prefixed p k c =
    answer (Executor.storage_delete_prefixed Api.handle_prefixed c.storage p k) Result.done c
