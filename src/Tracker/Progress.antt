-- ===== src/Tracker/Progress.antt =====
-- `progress` of parachain-tracer/src/tracker.rs and the `notify_*` methods that it calls.
pub mod Report
pub mod Totality
use polkadot_introspector.Prelude.{
  ℕ, ◌-◌, ◌≡◌, Bool, true, false, not, ◌&&◌, Option, none, some, List, [], ◌∷◌, ◌++◌, map, ◌==◌,
  nat_eq, if◌then◌else◌, is_some, is_some_and, and_then, map_option, unwrap_or, Outcome, ok, panic,
  ◌>>=◌,
}
use polkadot_introspector.Prelude.Assoc.{keys, map_values}
use polkadot_introspector.Tracker.BlockInfo.{
  H256, BlockAvailability, ParachainBlockInfo, ParachainBlockState, is_bitfield_propagation_slow,
}
use polkadot_introspector.Tracker.Calls
use polkadot_introspector.Tracker.Calls.{Journal, StatsCall, MetricsCall}
use polkadot_introspector.Tracker.Disputes.{time_diff}
use polkadot_introspector.Tracker.Queues.{
  has_hrmp_messages, active_inbound_channels, active_outbound_channels,
}
use polkadot_introspector.Tracker.Records.{TrackerStorage, candidate_of}
use polkadot_introspector.Tracker.State.{
  SubxtTracker, Slots, is_fork, current_candidate, all_candidates_and_skipped_slots,
  is_slow_availability, current_block_time, last_candidate,
}
use polkadot_introspector.Tracker.Types.{
  Block, DisputesTracker, ParachainConsensusEvent, ParachainProgressUpdate,
}
use polkadot_introspector.Tracker.Types

-- `progress.events.push(event)`, with the calls made beside it
unfoldable pub note :
    Journal → List ParachainConsensusEvent → List StatsCall → List MetricsCall → Journal
note j events stats metrics = record {
  update = record (j.update) { events = j.update.events ++ events };
  stats = j.stats ++ stats;
  metrics = j.metrics ++ metrics;
}

-- the event of an optional value, if there is one
abbrev pub event_of {ℓ} :
    {A : Type ℓ} → Option A → (A → ParachainConsensusEvent) → List ParachainConsensusEvent
event_of none f = []
event_of (some a) f = f a ∷ []

unfoldable pub notify_new_session : SubxtTracker → Journal → Journal
unfolding note
notify_new_session t j = note j (event_of t.new_session ParachainConsensusEvent.new_session) [] []

unfoldable pub notify_cores : SubxtTracker → List ℕ → Journal → Journal
unfolding note
notify_cores t [] j = j
notify_cores t (core ∷ cores) j = notify_cores t cores (
    if is_some (current_candidate t core)
    then note j (ParachainConsensusEvent.core_assigned core ∷ []) [] []
    else j)

unfoldable pub notify_core_assignment : SubxtTracker → Journal → Journal
unfolding notify_cores
notify_core_assignment t j = notify_cores t (keys t.cores) j

unfoldable pub note_bits : SubxtTracker → ParachainBlockInfo → BlockAvailability → Journal → Journal
unfolding note
note_bits t c a j =
    let slow = is_bitfield_propagation_slow c in
    note j
      (if slow then ParachainConsensusEvent.slow_bitfield_propagation a.current a.max ∷ [] else [])
      (StatsCall.on_bitfields a.current slow ∷ [])
      (MetricsCall.on_bitfields a.current slow t.para_id ∷ [])

unfoldable pub notify_bits : SubxtTracker → List ℕ → Journal → Journal
unfolding note_bits
notify_bits t [] j = j
notify_bits t (core ∷ cores) j = notify_bits t cores (elim (current_candidate t core) [
  | none ↦ j
  | some c ↦ elim c.availability [ none ↦ j | some a ↦ note_bits t c a j ]
])

unfoldable pub notify_bitfield_propagation : SubxtTracker → Journal → Journal
unfolding notify_bits
notify_bitfield_propagation t j = notify_bits t (keys t.cores) j

-- `saturating_sub` of the block that backed the candidate and its relay parent
unfoldable pub candidate_backed_in : H256 → TrackerStorage → Outcome (Option ℕ)
candidate_backed_in hash st = do
  stored ← candidate_of st hash
  ok (
      map_option (λ v. v.candidate_inclusion.backed - v.candidate_inclusion.relay_parent_number)
        stored)

-- The tests of one candidate, by its state. `block` is the current relay block.
unfoldable pub note_candidate :
    SubxtTracker
    → Block
    → TrackerStorage
    → ParachainBlockInfo
    → ParachainBlockState
    → Journal
    → Outcome Journal
unfolding note
note_candidate t block st c ParachainBlockState.backed j = ok (
    note j (ParachainConsensusEvent.backed c.candidate_hash ∷ []) (StatsCall.on_backed ∷ [])
      (MetricsCall.on_backed t.para_id ∷ []))
note_candidate t block st c ParachainBlockState.pending_availability j =
    let j' = note j (ParachainConsensusEvent.pending_availability c.candidate_hash ∷ []) [] [] in
    ok (
      if is_slow_availability t c.assigned_core
      then note j'
          (event_of c.availability (λ a. ParachainConsensusEvent.slow_availability a.current a.max))
          (StatsCall.on_slow_availability ∷ []) (MetricsCall.on_slow_availability t.para_id ∷ [])
      else j')
note_candidate t block st c ParachainBlockState.included j = do
  backed_in ← candidate_backed_in c.candidate_hash st
  let previous = t.previous_included_at
  ok (
      note j
        (event_of c.availability
          (λ a. ParachainConsensusEvent.included c.candidate_hash a.current a.max))
        (StatsCall.on_included block.num (map_option (λ v. v.num) previous) backed_in ∷ [])
        (MetricsCall.on_included block.num (map_option (λ v. v.num) previous) backed_in
            (time_diff (some block.ts) (map_option (λ v. v.ts) previous)) t.para_id
          ∷ []))
note_candidate t block st c ParachainBlockState.dropped j =
    ok (note j (ParachainConsensusEvent.dropped c.candidate_hash ∷ []) [] [])

-- A skipped slot is pushed before the calls, which get the update as it then stands.
unfoldable pub note_skipped : Journal → Journal
unfolding note
note_skipped j =
    let j' = note j (ParachainConsensusEvent.skipped_slot ∷ []) [] [] in
    note j' [] (StatsCall.on_skipped_slot j'.update ∷ [])
      (MetricsCall.on_skipped_slot j'.update ∷ [])

unfoldable pub notify_slots :
    SubxtTracker → Block → TrackerStorage → Slots → Journal → Outcome Journal
unfolding note_candidate note_skipped
notify_slots t block st [] j = ok j
notify_slots t block st (none ∷ slots) j = notify_slots t block st slots (note_skipped j)
notify_slots t block st (some c ∷ slots) j = do
  j' ← note_candidate t block st c c.state j
  notify_slots t block st slots j'

unfoldable pub notify_candidate_state :
    SubxtTracker → Block → TrackerStorage → Journal → Outcome Journal
unfolding notify_slots
notify_candidate_state t block st j = notify_slots t block st (all_candidates_and_skipped_slots t) j

-- Disputes were reported with the first block of the number.
unfoldable pub notify_disputes : SubxtTracker → Journal → Journal
unfolding note
notify_disputes t j =
    if is_fork t
    then j
    else note j (map ParachainConsensusEvent.disputed t.disputes)
        (map StatsCall.on_disputed t.disputes)
        (map (λ d. MetricsCall.on_disputed d t.para_id) t.disputes)

unfoldable pub notify_active_message_queues : SubxtTracker → Journal → Journal
unfolding note
notify_active_message_queues t j =
    if has_hrmp_messages t.message_queues
    then note j
        (ParachainConsensusEvent.message_queues (active_inbound_channels t.message_queues)
            (active_outbound_channels t.message_queues)
          ∷ [])
        [] []
    else j

unfoldable pub notify_current_block_time : SubxtTracker → Journal → Journal
unfolding note
notify_current_block_time t j =
    if is_fork t then j else note j [] (StatsCall.on_block (current_block_time t) ∷ []) []

unfoldable pub notify_finality_lag : SubxtTracker → Journal → Journal
unfolding note
notify_finality_lag t j = elim t.finality_lag [
  | none ↦ j
  | some lag ↦ note j [] [] (MetricsCall.on_finality_lag lag ∷ [])
]

unfoldable pub start_journal : SubxtTracker → Block → Journal
start_journal t block = record {
  update = record {
    para_id = t.para_id;
    timestamp = block.ts;
    prev_timestamp = unwrap_or t.last_non_fork_relay_block_ts block.ts;
    block_number = block.num;
    block_hash = block.hash;
    core_occupied =
        map_values (λ slots. is_some_and (last_candidate slots) (λ c. c.core_occupied))
          t.candidates;
    events = [];
    is_fork = is_fork t;
    finality_lag = t.finality_lag;
  };
  stats = [];
  metrics = [];
}

unfoldable pub progress_at : SubxtTracker → Block → TrackerStorage → Outcome Journal
unfolding start_journal notify_new_session notify_core_assignment notify_bitfield_propagation
    notify_candidate_state notify_disputes notify_active_message_queues notify_current_block_time
    notify_finality_lag
progress_at t block st = do
  let before =
      notify_bitfield_propagation t
        (notify_core_assignment t (notify_new_session t (start_journal t block)))
  j ← notify_candidate_state t block st before
  ok (
      notify_finality_lag t
        (notify_current_block_time t (notify_active_message_queues t (notify_disputes t j))))

-- `None` before the first block.
unfoldable pub progress : SubxtTracker → TrackerStorage → Outcome (Option Journal)
unfolding progress_at
progress t st = elim t.current_relay_block [
  | none ↦ ok none
  | some block ↦ (do j ← progress_at t block st; ok (some j))
]
