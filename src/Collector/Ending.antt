-- ===== src/Collector/Ending.antt =====
-- How the collector's task ends: every receiver that is there is told.
use polkadot_introspector.Prelude.{
  ℕ, ◌≡◌, ◌≢◌, ◌⊎◌, inl, inr, refl, arith, true, false, ◌++◌, Option, none, some, List, [], ◌∷◌,
  map, nat_eq, All, last?, last?-append_one, if◌then◌else◌,
}
use polkadot_introspector.Prelude.Assoc.{map_values}
use polkadot_introspector.Collector.Types.{
  Collector, CollectorError, CollectorUpdateEvent, ChainEvent, ChainSubscriptionEvent, Sender,
  TerminationReason,
}
use polkadot_introspector.Collector.Action.{Result}
use polkadot_introspector.Collector.Node.{Node}
use polkadot_introspector.Collector.Broadcast.{send_priority, broadcast_event_priority, terminate}
use polkadot_introspector.Collector.Run.{
  Round, settle, Input, timed, process_events, process_collected, process_chain_event, round,
  after_round, run_with_consumer_channel,
}

-- If the receiver is there, the event is the last on its priority channel.
abbrev pub Told : CollectorUpdateEvent → Sender CollectorUpdateEvent → Type 0
Told e s = s.connected ≡ true → last? s.priority_messages ≡ some e

abbrev pub AllTold : CollectorUpdateEvent → Collector → Type 0
AllTold e c =
    All (λ (p : ℕ × List (Sender CollectorUpdateEvent)). All (Told e) p.1) c.subscribe_channels
    × All (Told e) c.broadcast_channels

send_priority-Told :
    (e : CollectorUpdateEvent) (s : Sender CollectorUpdateEvent) → Told e (send_priority e s)
unfolding send_priority
send_priority-Told e s =
    elim s.connected
        as (λ b.
          s.connected ≡ b
          → Told e
              (if b then record s { priority_messages = s.priority_messages ++ e ∷ [] } else s)) [
                | true ↦ λ h k. last?-append_one s.priority_messages e
                | false ↦ λ h k. ground (arith, h, k)
              ]
      refl

all_of_map :
    (e : CollectorUpdateEvent) (channels : List (Sender CollectorUpdateEvent))
    → All (Told e) (map (send_priority e) channels)
all_of_map e [] = tt
all_of_map e (s ∷ channels) = (send_priority-Told e s, all_of_map e channels)

all_of_paras :
    (e : CollectorUpdateEvent) (paras : List (ℕ × List (Sender CollectorUpdateEvent)))
    → All
        (λ (p : ℕ × List (Sender CollectorUpdateEvent)). All (Told e) p.1)
        (map_values (map (send_priority e)) paras)
unfolding map_values
all_of_paras e [] = tt
all_of_paras e ((p, channels) ∷ paras) = (all_of_map e channels, all_of_paras e paras)

terminate-AllTold :
    (r : TerminationReason) (c : Collector)
    → AllTold (CollectorUpdateEvent.terminated r) (terminate r c)
unfolding terminate broadcast_event_priority
terminate-AllTold r c = (all_of_paras _ c.subscribe_channels, all_of_map _ c.broadcast_channels)

-- What an end of the task promises.
abbrev pub EndsTold : Round × Collector → Type 0
EndsTold (Round.next, c) = Unit
EndsTold (Round.ended told r, c) = AllTold (CollectorUpdateEvent.terminated r) c
EndsTold (Round.crashed, c) = Unit

module _ (node : Node) where
  settle-EndsTold :
      (r : Result (Unit {0})) (rest : Collector → Round × Collector) (c : Collector)
      → EndsTold (rest c)
      → EndsTold (settle r rest c)
  settle-EndsTold (Result.done u) rest c h = h
  settle-EndsTold (Result.failed CollectorError.non_fatal) rest c h = h
  settle-EndsTold (Result.failed CollectorError.executor_fatal) rest c h =
      terminate-AllTold TerminationReason.abnormal c
  settle-EndsTold (Result.failed CollectorError.send_fatal) rest c h =
      terminate-AllTold TerminationReason.abnormal c
  settle-EndsTold Result.panicked rest c h = tt

  process_events-EndsTold :
      (events : List (ChainEvent × ℕ)) (c : Collector) → EndsTold (process_events node events c)
  unfolding process_events
  process_events-EndsTold [] c = tt
  process_events-EndsTold ((event, now) ∷ events) c =
      let r = process_chain_event node event now c in
      settle-EndsTold r.0 (process_events node events) r.1 (process_events-EndsTold events r.1)

  process_collected-EndsTold :
      (es : Option (List ChainEvent)) (times : ℕ → ℕ) (c : Collector)
      → EndsTold (process_collected node es times c)
  process_collected-EndsTold none times c = terminate-AllTold TerminationReason.abnormal c
  process_collected-EndsTold (some events) times c =
      process_events-EndsTold (timed times 0 events) c

  round-EndsTold : (input : Input) (c : Collector) → EndsTold (round node input c)
  unfolding round
  round-EndsTold (Input.message ChainSubscriptionEvent.termination times) c =
      terminate-AllTold TerminationReason.normal c
  round-EndsTold (Input.message (ChainSubscriptionEvent.new_best_head h x) times) c =
      process_collected-EndsTold _ times c
  round-EndsTold (Input.message (ChainSubscriptionEvent.new_finalized_block h x) times) c =
      process_collected-EndsTold _ times c
  round-EndsTold (Input.message ChainSubscriptionEvent.heartbeat times) c =
      process_collected-EndsTold (some []) times c
  round-EndsTold Input.closed c = terminate-AllTold TerminationReason.normal c
  round-EndsTold Input.shutdown c = terminate-AllTold TerminationReason.normal c

  after_round-EndsTold :
      (r : Round) (rest : Collector → Round × Collector) (c : Collector)
      → EndsTold (r, c)
      → EndsTold (rest c)
      → EndsTold (after_round r rest c)
  after_round-EndsTold Round.next rest c h k = k
  after_round-EndsTold (Round.ended told r) rest c h k = h
  after_round-EndsTold Round.crashed rest c h k = h

  run_with_consumer_channel-EndsTold :
      (inputs : List Input) (c : Collector) → EndsTold (run_with_consumer_channel node inputs c)
  unfolding run_with_consumer_channel
  run_with_consumer_channel-EndsTold [] c = tt
  run_with_consumer_channel-EndsTold (input ∷ inputs) c =
      let r = round node input c in
      after_round-EndsTold r.0 (run_with_consumer_channel node inputs) r.1 (round-EndsTold input c)
        (run_with_consumer_channel-EndsTold inputs r.1)

  after_round-stops :
      (r : Round) (rest : Collector → Round × Collector) (c : Collector)
      → (rest c).0 ≢ Round.next
      → (after_round r rest c).0 ≢ Round.next
  after_round-stops Round.next rest c h = h
  after_round-stops (Round.ended told r) rest c h = λ p. cc
  after_round-stops Round.crashed rest c h = λ p. cc

  last_round-stops :
      (last : Input) (c : Collector)
      → (last ≡ Input.closed) ⊎ (last ≡ Input.shutdown)
      → (run_with_consumer_channel node (last ∷ []) c).0 ≢ Round.next
  unfolding run_with_consumer_channel round
  last_round-stops Input.closed c h = λ p. cc
  last_round-stops Input.shutdown c h = λ p. cc
  last_round-stops (Input.message event times) c (inl e) = cc
  last_round-stops (Input.message event times) c (inr e) = cc

  run-stops :
      (inputs : List Input) (last : Input) (c : Collector)
      → (last ≡ Input.closed) ⊎ (last ≡ Input.shutdown)
      → (run_with_consumer_channel node (inputs ++ last ∷ []) c).0 ≢ Round.next
  unfolding run_with_consumer_channel
  run-stops [] last c h = last_round-stops last c h
  run-stops (input ∷ inputs) last c h =
      let r = round node input c in
      after_round-stops r.0 (run_with_consumer_channel node (inputs ++ last ∷ [])) r.1
        (run-stops inputs last r.1 h)

-- When the loop gets the signal to shut down, or its messages end, it does not go on: the task has
-- ended by then, or has crashed. And whenever it ended, for this or for an error, every receiver that
-- is still there has the end and its reason as the last message of its priority channel.
pub run-ends :
    (node : Node) (inputs : List Input) (last : Input) (c : Collector)
    → (last ≡ Input.closed) ⊎ (last ≡ Input.shutdown)
    → let after = run_with_consumer_channel node (inputs ++ last ∷ []) c in
      (after.0 ≢ Round.next) × EndsTold after
run-ends node inputs last c h = (
  run-stops node inputs last c h,
  run_with_consumer_channel-EndsTold node (inputs ++ last ∷ []) c,
)
