-- ===== src/Collector/Frame/Loop.antt =====
-- The import of a head, the handler of every event, and the whole loop respect every frame.
use polkadot_introspector.Prelude.{
  ℕ, ◌<◌, ◌≡◌, refl, arith, ◌∙◌, Bool, true, false, Option, none, some, List, [], ◌∷◌, ◌==◌, nat_eq,
  ltb, if◌then◌else◌,
}
use polkadot_introspector.Storage.Entry.{StorageEntry}
use polkadot_introspector.Tracker.BlockInfo.{H256}
use polkadot_introspector.Tracker.Types.{Header, Timestamp}
use polkadot_introspector.Collector.Types.{
  Collector, CollectorError, ChainEvent, ChainSubscriptionEvent, SubxtCandidateEvent,
  SubxtCandidateEventType, TerminationReason, backed, included, timed_out,
}
use polkadot_introspector.Collector.Action.{Result, gets, modify_state, ◌>>=◌, ◌>>◌, continue}
use polkadot_introspector.Collector.Node.{Node}
use polkadot_introspector.Collector.Broadcast.{update_state}
use polkadot_introspector.Collector.Heads.{write_hrmp_channels}
use polkadot_introspector.Collector.Import.{
  next_block, fork_or_refuse, advance, store_session, update_session_keys, process_new_head,
  process_new_best_head, process_new_finalized_head,
}
use polkadot_introspector.Collector.Candidates.{
  store_header, fetch_header, read_or_fetch_header, store_backed, change_candidate,
  process_candidate_change,
}
use polkadot_introspector.Collector.Run.{
  process_chain_event, process_events, Round, settle, Input, timed, process_collected, after_round,
  round, run_with_consumer_channel,
}
use polkadot_introspector.Collector.Frame.{
  Frame, Quiet, Keeps, bind-Keeps, then-Keeps, modify_state-Keeps, frame_rules,
}
use polkadot_introspector.Collector.Frame.Heads.{
  write_rules, announce_session-Keeps, fork_or_refuse-Keeps, remove_old_session-Keeps,
  write_relevant_finalized-Keeps, write_hrmp_channels-Keeps, write_parainherent_data-Keeps,
  write_occupied_cores-Keeps, write_backing_groups-Keeps, write_core_assignments-Keeps,
  note_missing_authors-Keeps,
}
use polkadot_introspector.Collector.Frame.Events.{
  event_rules, process_included-Keeps, process_timed_out-Keeps, process_dispute_initiated-Keeps,
  process_dispute_concluded-Keeps,
}

-- Methods that leave the state alone.
abbrev pub same_state : Quiet
same_state = record {
  Rel = λ c d. c.state ≡ d.state;
  reflexive = λ c. refl;
  transitive = λ a b c e f. e ∙ f;
  of_storage = λ c s. refl;
}

module _ (F : Frame) (node : Node) where
  -- The update of the state after a method that leaves the state alone.
  update_after :
      (r : Result (Unit {0})) (n : ℕ) (h : H256) (a b : Collector)
      → F.quiet.Rel a b
      → b.state.current_relay_chain_block_number < n
      → F.quiet.Rel a (continue r (λ u. update_state n h) b).1
  update_after (Result.done u) n h a b t l =
      F.quiet.transitive a b (update_state n h b).1 t (F.of_update b n h l)
  update_after (Result.failed e) n h a b t l = t
  update_after Result.panicked n h a b t l = t

  next_block-Rel :
      (h : H256) (n : ℕ) (ts : Timestamp) (c : Collector)
      → c.state.current_relay_chain_block_number < n
      → F.quiet.Rel c (next_block node h n ts c).1
  unfolding next_block ◌>>◌ ◌>>=◌
  next_block-Rel h n ts c l =
      let r = write_hrmp_channels node h n ts c in
      update_after r.0 n h c r.1 ((write_hrmp_channels-Keeps F.quiet node h n ts).holds c)
        (rw ((write_hrmp_channels-Keeps same_state node h n ts).holds c) at l)

  advance-Rel :
      (h : H256) (n : ℕ) (ts : Timestamp) (c : Collector) (b : Bool)
      → ltb c.state.current_relay_chain_block_number n ≡ b
      → F.quiet.Rel c
          ((if b
              then next_block node h n ts
              else fork_or_refuse h (c.state.current_relay_chain_block_number == n))
            c).1
  advance-Rel h n ts c true e = next_block-Rel h n ts c (ground arith)
  advance-Rel h n ts c false e = (fork_or_refuse-Keeps F h _).holds c

  advance-Keeps : (h : H256) (n : ℕ) (ts : Timestamp) → Keeps F.quiet (advance node h n ts)
  unfolding advance ◌>>=◌ gets
  advance-Keeps h n ts = record { holds = λ c. advance-Rel h n ts c _ refl }

  update_session_keys-Keeps :
      (h : H256) (n : ℕ) (ts : Timestamp) (s : ℕ)
      → Keeps F.quiet (update_session_keys node h n ts s)
  unfolding update_session_keys store_session
  update_session_keys-Keeps h n ts s = search (frame_rules, remove_old_session-Keeps) depth 14

  process_new_head-Keeps :
      (h : H256) (header : Header) (ts : Timestamp) (n : ℕ)
      → Keeps F.quiet (process_new_head node h header ts n)
  unfolding process_new_head
  process_new_head-Keeps h header ts n =
      search
        (
          write_rules, advance-Keeps, update_session_keys-Keeps, announce_session-Keeps,
          write_parainherent_data-Keeps, write_occupied_cores-Keeps, write_backing_groups-Keeps,
          write_core_assignments-Keeps, note_missing_authors-Keeps,
        )
        depth 16

  process_new_best_head-Keeps :
      (h : H256) (header : Header) → Keeps F.quiet (process_new_best_head node h header)
  unfolding process_new_best_head
  process_new_best_head-Keeps h header =
      search (frame_rules, write_relevant_finalized-Keeps, process_new_head-Keeps) depth 9

  process_new_finalized_head-Keeps :
      (h : H256) (header : Header) → Keeps F.quiet (process_new_finalized_head node h header)
  unfolding process_new_finalized_head modify_state
  process_new_finalized_head-Keeps h header = bind-Keeps F.quiet _ _ (search frame_rules) (λ ts.
      then-Keeps F.quiet _ _ (record { holds = λ c. F.of_finalize c header.number })
        (search (frame_rules, process_new_head-Keeps) depth 9))

  read_or_fetch_header-Keeps : (h : H256) → Keeps F.quiet (read_or_fetch_header node h)
  unfolding read_or_fetch_header fetch_header store_header
  read_or_fetch_header-Keeps h = search write_rules depth 14

  store_backed-Keeps : (e : SubxtCandidateEvent) (now : ℕ) → Keeps F.quiet (store_backed node e now)
  unfolding store_backed
  store_backed-Keeps e now = bind-Keeps F.quiet _ _ (search frame_rules) (λ n.
      then-Keeps F.quiet _ _ (search write_rules) (
        bind-Keeps F.quiet _ _ (read_or_fetch_header-Keeps e.relay_parent) (λ found.
          bind-Keeps F.quiet _ _ (search frame_rules) (λ header.
            then-Keeps F.quiet _ _ (search write_rules) (
              then-Keeps F.quiet _ _ (search event_rules) (
                then-Keeps F.quiet _ _ (modify_state-Keeps F _ (λ s. (refl, refl)))
                  (search frame_rules)))))))

  change_candidate-Keeps :
      (e : SubxtCandidateEvent) (now : ℕ) (t : SubxtCandidateEventType) (o : Option StorageEntry)
      → Keeps F.quiet (change_candidate node e now t o)
  unfolding change_candidate
  change_candidate-Keeps e now backed o = search (event_rules, store_backed-Keeps)
  change_candidate-Keeps e now included o = search (event_rules, process_included-Keeps)
  change_candidate-Keeps e now timed_out o = search (event_rules, process_timed_out-Keeps)

  -- Every event of the chain.
  pub process_chain_event-Keeps :
      (event : ChainEvent) (now : ℕ) → Keeps F.quiet (process_chain_event node event now)
  unfolding process_chain_event process_candidate_change
  process_chain_event-Keeps (ChainEvent.new_best_head h x) now = process_new_best_head-Keeps h x
  process_chain_event-Keeps (ChainEvent.new_finalized_head h x) now =
      process_new_finalized_head-Keeps h x
  process_chain_event-Keeps (ChainEvent.candidate_changed e) now =
      search (frame_rules, change_candidate-Keeps)
  process_chain_event-Keeps (ChainEvent.dispute_initiated d) now =
      process_dispute_initiated-Keeps F d now
  process_chain_event-Keeps (ChainEvent.dispute_concluded d r) now =
      process_dispute_concluded-Keeps F d r now

  settle-Rel :
      (r : Result (Unit {0})) (rest : Collector → Round × Collector) (a b : Collector)
      → F.quiet.Rel a b
      → F.quiet.Rel b (rest b).1
      → F.quiet.Rel a (settle r rest b).1
  settle-Rel (Result.done u) rest a b t l = F.quiet.transitive a b (rest b).1 t l
  settle-Rel (Result.failed CollectorError.non_fatal) rest a b t l =
      F.quiet.transitive a b (rest b).1 t l
  settle-Rel (Result.failed CollectorError.executor_fatal) rest a b t l =
      F.quiet.transitive a b _ t (F.of_terminate b TerminationReason.abnormal)
  settle-Rel (Result.failed CollectorError.send_fatal) rest a b t l =
      F.quiet.transitive a b _ t (F.of_terminate b TerminationReason.abnormal)
  settle-Rel Result.panicked rest a b t l = t

  pub process_events-Rel :
      (events : List (ChainEvent × ℕ)) (c : Collector)
      → F.quiet.Rel c (process_events node events c).1
  unfolding process_events
  process_events-Rel [] c = F.quiet.reflexive c
  process_events-Rel ((event, now) ∷ events) c =
      let r = process_chain_event node event now c in
      settle-Rel r.0 (process_events node events) c r.1
        ((process_chain_event-Keeps event now).holds c) (process_events-Rel events r.1)

  process_collected-Rel :
      (es : Option (List ChainEvent)) (times : ℕ → ℕ) (c : Collector)
      → F.quiet.Rel c (process_collected node es times c).1
  process_collected-Rel none times c = F.of_terminate c TerminationReason.abnormal
  process_collected-Rel (some events) times c = process_events-Rel (timed times 0 events) c

  pub round-Rel : (input : Input) (c : Collector) → F.quiet.Rel c (round node input c).1
  unfolding round
  round-Rel (Input.message ChainSubscriptionEvent.termination times) c =
      F.of_terminate c TerminationReason.normal
  round-Rel (Input.message (ChainSubscriptionEvent.new_best_head h x) times) c =
      process_collected-Rel _ times c
  round-Rel (Input.message (ChainSubscriptionEvent.new_finalized_block h x) times) c =
      process_collected-Rel _ times c
  round-Rel (Input.message ChainSubscriptionEvent.heartbeat times) c =
      process_collected-Rel (some []) times c
  round-Rel Input.closed c = F.of_terminate c TerminationReason.normal
  round-Rel Input.shutdown c = F.of_terminate c TerminationReason.normal

  after_round-Rel :
      (r : Round) (inputs : List Input) (a b : Collector)
      → F.quiet.Rel a b
      → F.quiet.Rel b (run_with_consumer_channel node inputs b).1
      → F.quiet.Rel a (after_round r (run_with_consumer_channel node inputs) b).1
  after_round-Rel Round.next inputs a b t l = F.quiet.transitive a b _ t l
  after_round-Rel (Round.ended told reason) inputs a b t l = t
  after_round-Rel Round.crashed inputs a b t l = t

  pub run_with_consumer_channel-Rel :
      (inputs : List Input) (c : Collector)
      → F.quiet.Rel c (run_with_consumer_channel node inputs c).1
  unfolding run_with_consumer_channel
  run_with_consumer_channel-Rel [] c = F.quiet.reflexive c
  run_with_consumer_channel-Rel (input ∷ inputs) c =
      let r = round node input c in
      after_round-Rel r.0 inputs c r.1 (round-Rel input c)
        (run_with_consumer_channel-Rel inputs r.1)
