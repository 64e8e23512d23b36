-- ===== src/Collector/Frame.antt =====
-- What holds between a collector before a method and after it, whichever way the method ends: a
-- relation that every change of the code respects is respected by every method.
pub mod Heads
pub mod Events
pub mod Loop
use polkadot_introspector.Prelude.{
  ℕ, zero, suc, ◌+◌, ◌-◌, ◌%◌, ◌<◌, ◌≡◌, refl, Bool, true, false, Option, none, some, List, [], ◌∷◌,
  ◌++◌, Outcome, ok, panic, nat_eq, if◌then◌else◌, length, get_elem?,
}
use polkadot_introspector.Api
use polkadot_introspector.Api.Executor
use polkadot_introspector.Storage.Entry.{StorageEntry}
use polkadot_introspector.Storage.Prefixed.{Prefixed}
use polkadot_introspector.Tracker.BlockInfo.{H256}
use polkadot_introspector.Tracker.Queues.{Channels}
use polkadot_introspector.Tracker.Records.{CollectorPrefixType, Codecs, prefix_eq}
use polkadot_introspector.Storage.Entry.{Codec, RecordTime}
use polkadot_introspector.Tracker.Types.{AccountId32, Timestamp, Header}
use polkadot_introspector.Collector.Types.{
  Collector, CollectorState, CollectorError, CollectorUpdateEvent, Sender, TerminationReason,
  WebSocketUpdateEvent,
}
use polkadot_introspector.Collector.Action.{
  Action, Result, Records, answer, no_answer, written, pure, fail, gets, or_fail, or_panic,
  continue, ◌>>=◌, ◌>>◌, modify_state, when, if_none, storage_read_prefixed, storage_write_prefixed,
  storage_replace_prefixed, storage_delete_prefixed,
}
use polkadot_introspector.Collector.Broadcast.{send, update_state, broadcast_event, terminate}
use polkadot_introspector.Collector.Import.{finalize}
use polkadot_introspector.Collector.Candidates.{told, tell_websocket}

-- The two parts of the state that only the import of a head changes.
abbrev pub HasSameHeads : CollectorState → CollectorState → Type 0
HasSameHeads s t =
    (s.current_relay_chain_block_number ≡ t.current_relay_chain_block_number)
    × (s.last_finalized_block_number ≡ t.last_finalized_block_number)

-- The part of a frame that methods which only read the node and use the storage need.
pub record Quiet : Type 1 where
  pub Rel : Collector → Collector → Type 0
  pub reflexive : (c : Collector) → Rel c c
  pub transitive : (a b c : Collector) → Rel a b → Rel b c → Rel a c
  pub of_storage : (c : Collector) (s : Records) → Rel c (record c { storage = s })

pub record Frame : Type 1 where
  pub quiet : Quiet
  pub of_websocket :
      (c : Collector) (w : Option (Sender WebSocketUpdateEvent))
      → quiet.Rel c (record c { to_websocket = w })
  pub of_state :
      (c : Collector) (s : CollectorState)
      → HasSameHeads c.state s
      → quiet.Rel c (record c { state = s })
  pub of_finalize :
      (c : Collector) (n : ℕ)
      → quiet.Rel c (record c {
        state = record c.state {
          last_finalized_block_number = finalize n c.state.last_finalized_block_number;
        };
      })
  pub of_broadcast :
      (c : Collector) (e : CollectorUpdateEvent) → quiet.Rel c (broadcast_event e c).1
  pub of_update :
      (c : Collector) (n : ℕ) (h : H256)
      → c.state.current_relay_chain_block_number < n
      → quiet.Rel c (update_state n h c).1
  pub of_terminate : (c : Collector) (r : TerminationReason) → quiet.Rel c (terminate r c)

module _ (Q : Quiet) where
  pub record Keeps {A : Type 0} (m : Action A) : Type 0 where
    pub holds : (c : Collector) → Q.Rel c (m c).1

  continue-Rel :
      {A B : Type 0} (r : Result A) (f : A → Action B) (a b : Collector)
      → Q.Rel a b
      → ((x : A) → Keeps (f x))
      → Q.Rel a (continue r f b).1
  continue-Rel (Result.done x) f a b t k = Q.transitive a b (f x b).1 t ((k x).holds b)
  continue-Rel (Result.failed e) f a b t k = t
  continue-Rel Result.panicked f a b t k = t

  pub bind-Keeps :
      {A B : Type 0} (m : Action A) (f : A → Action B)
      → Keeps m
      → ((x : A) → Keeps (f x))
      → Keeps (m >>= f)
  unfolding ◌>>=◌
  bind-Keeps m f h k = record { holds = λ c. continue-Rel (m c).0 f c (m c).1 (h.holds c) k }

  pub then-Keeps :
      {B : Type 0} (m : Action (Unit {0})) (n : Action B) → Keeps m → Keeps n → Keeps (m >> n)
  unfolding ◌>>◌
  then-Keeps m n h k = bind-Keeps m (λ u. n) h (λ u. k)

  pub gets-Keeps : {A : Type 0} (g : Collector → A) → Keeps (gets g)
  unfolding gets
  gets-Keeps g = record { holds = λ c. Q.reflexive c }

  pub pure-Keeps : {A : Type 0} (x : A) → Keeps (pure x)
  unfolding pure
  pure-Keeps x = record { holds = λ c. Q.reflexive c }

  pub or_fail-Keeps : {A : Type 0} (x : Option A) (e : CollectorError) → Keeps (or_fail x e)
  unfolding or_fail
  or_fail-Keeps none e = record { holds = λ c. Q.reflexive c }
  or_fail-Keeps (some x) e = record { holds = λ c. Q.reflexive c }

  pub or_panic-Keeps : {A : Type 0} (x : Option A) → Keeps (or_panic x)
  unfolding or_panic
  or_panic-Keeps none = record { holds = λ c. Q.reflexive c }
  or_panic-Keeps (some x) = record { holds = λ c. Q.reflexive c }

  pub when-Keeps : (b : Bool) (m : Action (Unit {0})) → Keeps m → Keeps (when b m)
  unfolding when
  when-Keeps true m h = record { holds = h.holds }
  when-Keeps false m h = record { holds = λ c. Q.reflexive c }

  pub fail-Keeps : (e : CollectorError) → Keeps (fail {A = Unit {0}} e)
  unfolding fail
  fail-Keeps e = record { holds = λ c. Q.reflexive c }

  pub if-Keeps :
      {A : Type 0} (b : Bool) (m n : Action A) → Keeps m → Keeps n → Keeps (if b then m else n)
  if-Keeps true m n h k = h
  if-Keeps false m n h k = k

  pub if_none-Keeps :
      {A B : Type 0} (o : Option A) (m : Action B) (f : A → Action B)
      → Keeps m
      → ((x : A) → Keeps (f x))
      → Keeps (if_none o m f)
  unfolding if_none
  if_none-Keeps none m f h k = record { holds = h.holds }
  if_none-Keeps (some x) m f h k = record { holds = (k x).holds }

  answer-Keeps :
      {A B : Type 0} (o : Outcome (Records × A)) (f : A → Result B) (c : Collector)
      → Q.Rel c (answer o f c).1
  answer-Keeps panic f c = Q.reflexive c
  answer-Keeps (ok r) f c = Q.of_storage c r.0

  no_answer-Keeps : (o : Outcome Records) (c : Collector) → Q.Rel c (no_answer o c).1
  no_answer-Keeps panic c = Q.reflexive c
  no_answer-Keeps (ok s) c = Q.of_storage c s

  pub storage_read_prefixed-Keeps :
      (p : CollectorPrefixType) (k : H256) → Keeps (storage_read_prefixed p k)
  unfolding storage_read_prefixed
  storage_read_prefixed-Keeps p k = record {
    holds = λ c.
        answer-Keeps (Executor.storage_read_prefixed Api.handle_prefixed c.storage p k) Result.done
          c;
  }

  pub storage_write_prefixed-Keeps :
      (p : CollectorPrefixType) (k : H256) (v : StorageEntry) → Keeps (storage_write_prefixed p k v)
  unfolding storage_write_prefixed
  storage_write_prefixed-Keeps p k v = record {
    holds = λ c.
        answer-Keeps (Executor.storage_write_prefixed Api.handle_prefixed c.storage p k v) written
          c;
  }

  pub storage_replace_prefixed-Keeps :
      (p : CollectorPrefixType) (k : H256) (v : StorageEntry)
      → Keeps (storage_replace_prefixed p k v)
  unfolding storage_replace_prefixed
  storage_replace_prefixed-Keeps p k v = record {
    holds = λ c.
        no_answer-Keeps (Executor.storage_replace_prefixed Api.handle_prefixed c.storage p k v) c;
  }

  pub storage_delete_prefixed-Keeps :
      (p : CollectorPrefixType) (k : H256) → Keeps (storage_delete_prefixed p k)
  unfolding storage_delete_prefixed
  storage_delete_prefixed-Keeps p k = record {
    holds = λ c.
        answer-Keeps (Executor.storage_delete_prefixed Api.handle_prefixed c.storage p k)
          Result.done c;
  }

module _ (F : Frame) where
  pub modify_state-Keeps :
      (f : CollectorState → CollectorState)
      → ((s : CollectorState) → HasSameHeads s (f s))
      → Keeps F.quiet (modify_state f)
  unfolding modify_state
  modify_state-Keeps f h = record { holds = λ c. F.of_state c (f c.state) (h c.state) }

  told-Keeps :
      (e : WebSocketUpdateEvent) (w : Option (Sender WebSocketUpdateEvent)) (c : Collector)
      → F.quiet.Rel c (told w e c).1
  unfolding send pure
  told-Keeps e none c = F.quiet.reflexive c
  told-Keeps e (some s) c = F.of_websocket c (some (send e s).0)

  pub tell_websocket-Keeps : (e : WebSocketUpdateEvent) → Keeps F.quiet (tell_websocket e)
  unfolding tell_websocket
  tell_websocket-Keeps e = record { holds = λ c. told-Keeps e c.to_websocket c }

pub ruleset frame_rules = (
  bind-Keeps, then-Keeps, gets-Keeps, pure-Keeps, or_fail-Keeps, or_panic-Keeps, when-Keeps,
  if_none-Keeps, storage_read_prefixed-Keeps, storage_write_prefixed-Keeps,
  storage_replace_prefixed-Keeps, storage_delete_prefixed-Keeps, tell_websocket-Keeps,
)
