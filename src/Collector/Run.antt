-- ===== src/Collector/Run.antt =====
-- The collector's loop in essentials/src/collector/mod.rs: `run_with_consumer_channel`,
-- `collect_chain_events`, `process_chain_event`, and the two ways to subscribe.
use polkadot_introspector.Prelude.{
  ℕ, suc, Bool, true, false, Option, none, some, List, [], ◌∷◌, ◌++◌, nat_eq, map, unwrap_or,
}
use polkadot_introspector.Prelude.Assoc.{lookup, insert}
use polkadot_introspector.Tracker.BlockInfo.{H256}
use polkadot_introspector.Collector.Types.{
  Collector, CollectorError, CollectorSubscribeMode, CollectorUpdateEvent, ChainEvent,
  ChainSubscriptionEvent, Sender, TerminationReason,
}
use polkadot_introspector.Collector.Action.{Action, Result}
use polkadot_introspector.Collector.Disputes.{disputes_to_chain_events}
use polkadot_introspector.Collector.Broadcast.{terminate}
use polkadot_introspector.Collector.Node.{Node}
use polkadot_introspector.Collector.Import.{process_new_best_head, process_new_finalized_head}
use polkadot_introspector.Collector.Candidates.{process_candidate_change}
use polkadot_introspector.Collector.Disputed.{process_dispute_initiated, process_dispute_concluded}

-- A channel with its receiver still there and nothing in it
abbrev pub fresh : Sender CollectorUpdateEvent
fresh = record { connected = true; messages = []; priority_messages = [] }

unfoldable pub subscribe_parachain_updates : ℕ → Collector → Collector
subscribe_parachain_updates para_id c = record c {
  subscribe_channels =
      insert para_id (unwrap_or (lookup para_id c.subscribe_channels) [] ++ fresh ∷ [])
        c.subscribe_channels;
}

unfoldable pub subscribe_broadcast_updates : Collector → Collector
subscribe_broadcast_updates c = record c { broadcast_channels = c.broadcast_channels ++ fresh ∷ [] }

unfoldable pub new_head_hash : ChainSubscriptionEvent → CollectorSubscribeMode → Option H256
new_head_hash (ChainSubscriptionEvent.new_best_head hash header) CollectorSubscribeMode.best =
    some hash
new_head_hash (ChainSubscriptionEvent.new_finalized_block hash header)
      CollectorSubscribeMode.finalized =
    some hash
new_head_hash _ _ = none

-- How a round of the loop ends. A round that ends the task also tells the other tasks to shut down,
-- or does not.
pub data Round : Type 0 where
  next : Round
  ended : Bool → TerminationReason → Round
  crashed : Round

-- A fatal error ends the task after it told its subscribers; another error is logged.
abbrev pub settle :
    Result (Unit {0}) → (Collector → Round × Collector) → Collector → Round × Collector
settle (Result.done u) rest c = rest c
settle (Result.failed CollectorError.non_fatal) rest c = rest c
settle (Result.failed _) rest c =
    (Round.ended false TerminationReason.abnormal, terminate TerminationReason.abnormal c)
settle Result.panicked rest c = (Round.crashed, c)

-- What the loop waits for: a message, with the times at which its events are handled, the end of the
-- messages, or the signal to shut down.
pub data Input : Type 0 where
  message : ChainSubscriptionEvent → (ℕ → ℕ) → Input
  closed shutdown : Input

unfoldable pub timed : (ℕ → ℕ) → ℕ → List ChainEvent → List (ChainEvent × ℕ)
timed times i [] = []
timed times i (event ∷ events) = (event, times i) ∷ timed times (suc i) events

abbrev pub finish : Bool → Collector → Round × Collector
finish shut_down c =
    (Round.ended shut_down TerminationReason.normal, terminate TerminationReason.normal c)

abbrev pub after_round : Round → (Collector → Round × Collector) → Collector → Round × Collector
after_round Round.next rest c = rest c
after_round (Round.ended told reason) rest c = (Round.ended told reason, c)
after_round Round.crashed rest c = (Round.crashed, c)

module _ (node : Node) where
  -- The candidates and the disputes of a block; `none` is an error of one of the two calls.
  unfoldable pub block_events : H256 → ℕ → Option (List ChainEvent)
  unfolding disputes_to_chain_events
  block_events hash block_number = elim (node.get_candidate_events hash) [
    | none ↦ none
    | some candidates ↦ elim (node.get_disputes hash) [
      | none ↦ none
      | some disputes ↦ some (
          map ChainEvent.candidate_changed candidates
          ++ disputes_to_chain_events hash block_number disputes)
    ]
  ]

  unfoldable pub with_block_events : ChainEvent → ℕ → Option H256 → Option (List ChainEvent)
  unfolding block_events
  with_block_events head block_number none = some (head ∷ [])
  with_block_events head block_number (some hash) = elim (block_events hash block_number) [
    | none ↦ none
    | some events ↦ some (head ∷ events)
  ]

  unfoldable pub collect_chain_events :
      CollectorSubscribeMode → ChainSubscriptionEvent → Option (List ChainEvent)
  unfolding with_block_events new_head_hash
  collect_chain_events mode (ChainSubscriptionEvent.new_best_head hash header) =
      with_block_events (ChainEvent.new_best_head hash header) header.number
        (new_head_hash (ChainSubscriptionEvent.new_best_head hash header) mode)
  collect_chain_events mode (ChainSubscriptionEvent.new_finalized_block hash header) =
      with_block_events (ChainEvent.new_finalized_head hash header) header.number
        (new_head_hash (ChainSubscriptionEvent.new_finalized_block hash header) mode)
  collect_chain_events mode _ = some []

  unfoldable pub process_chain_event : ChainEvent → ℕ → Action (Unit {0})
  unfolding process_new_best_head process_new_finalized_head process_candidate_change
      process_dispute_initiated process_dispute_concluded
  process_chain_event (ChainEvent.new_best_head hash header) now =
      process_new_best_head node hash header
  process_chain_event (ChainEvent.new_finalized_head hash header) now =
      process_new_finalized_head node hash header
  process_chain_event (ChainEvent.candidate_changed event) now =
      process_candidate_change node event now
  process_chain_event (ChainEvent.dispute_initiated event) now = process_dispute_initiated event now
  process_chain_event (ChainEvent.dispute_concluded event result) now =
      process_dispute_concluded event result now

  -- Every event is handled at its own time, which is paired with it.
  unfoldable pub process_events : List (ChainEvent × ℕ) → Collector → Round × Collector
  unfolding process_chain_event terminate
  process_events [] c = (Round.next, c)
  process_events ((event, now) ∷ rest) c =
      let (r, c') = process_chain_event event now c in settle r (process_events rest) c'

  abbrev pub process_collected : Option (List ChainEvent) → (ℕ → ℕ) → Collector → Round × Collector
  process_collected none times c =
      (Round.ended false TerminationReason.abnormal, terminate TerminationReason.abnormal c)
  process_collected (some events) times c = process_events (timed times 0 events) c

  unfoldable pub round : Input → Collector → Round × Collector
  unfolding process_events timed collect_chain_events terminate
  round (Input.message ChainSubscriptionEvent.termination times) c = finish true c
  round (Input.message event times) c =
      process_collected (collect_chain_events c.subscribe_mode event) times c
  round Input.closed c = finish true c
  round Input.shutdown c = finish false c

  -- The loop, over what it waited for.
  unfoldable pub run_with_consumer_channel : List Input → Collector → Round × Collector
  unfolding round
  run_with_consumer_channel [] c = (Round.next, c)
  run_with_consumer_channel (input ∷ inputs) c =
      let (r, c') = round input c in after_round r (run_with_consumer_channel inputs) c'
