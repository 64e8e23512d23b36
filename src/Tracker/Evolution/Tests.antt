-- ===== src/Tracker/Evolution/Tests.antt =====
-- An example of a block that the tracker injects and reports, with all its records stored under
-- hash 7. The codecs are small concrete functions.
use polkadot_introspector.Tracker.Records.{prefix_beq}
use polkadot_introspector.Prelude.Assoc.{lookup}
use polkadot_introspector.Storage.Prefixed.{get_prefix}
use polkadot_introspector.Tracker.Progress.Totality.{CandidatesDecode, progress-returns}
use polkadot_introspector.Tracker.Progress.{progress}
use polkadot_introspector.Tracker.Records.{candidate_of}
use polkadot_introspector.Prelude.{◌⊎◌}
use polkadot_introspector.Prelude.{
  ℕ, ◌≡◌, refl, Bool, true, false, Option, none, some, List, [], ◌∷◌, ◌==◌, nat_eq, arith, Outcome,
  ok, panic, map, ◌>>=◌, keep, All,
}
use polkadot_introspector.Storage.Entry.{StorageEntry, onchain, Codec}
use polkadot_introspector.Storage.Prefixed.{Prefixed}
use polkadot_introspector.Tracker.BlockInfo.{H256, ParachainBlockInfo, ParachainBlockState}
use polkadot_introspector.Tracker.Types.{
  InherentData, NewHeadEvent, CoreOccupied, Block, ParachainConsensusEvent,
}
use polkadot_introspector.Tracker.Records.{CollectorPrefixType, Codecs, TrackerStorage, prefix_eq}
use polkadot_introspector.Tracker.State.{
  SubxtTracker, Slots, new_tracker, all_candidates_and_skipped_slots,
}
use polkadot_introspector.Tracker.Backing.Dropping.{TracksOne, maybe_reset_state-TracksOne}
use polkadot_introspector.Tracker.Records.{inherent_data_of}
use polkadot_introspector.Tracker.Inject.{inject_block, maybe_reset_state}
use polkadot_introspector.Tracker.Evolution.{Evolves, slots_of}
use polkadot_introspector.Tracker.Evolution.Cores.{inject_block-Evolves}
use polkadot_introspector.Tracker.Progress.{progress_at}
use polkadot_introspector.Tracker.Calls.{Journal, StatsCall, MetricsCall}
use polkadot_introspector.Tracker.Progress.Report.{
  is_slot_event, slot_events, progress_at-slot_events,
}

abbrev number_codec : Codec ℕ
number_codec = record {
  encode = λ n. n ∷ [];
  decode = λ bytes. elim bytes [ [] ↦ none | n ∷ rest ↦ some n ];
}

-- A codec for a type whose values this example never decodes.
abbrev no_codec : {T : Type 0} → Codec T
no_codec = record { encode = λ t. []; decode = λ bytes. none }

-- one bitfield, a bit for each byte
abbrev inherent_codec : Codec InherentData
inherent_codec = record {
  encode = λ i. [];
  decode = λ bytes. some (record { bitfields = map (λ b. b == 1) bytes ∷ []; disputes = [] });
}

abbrev occupied_codec : Codec (List CoreOccupied)
occupied_codec = record {
  encode = λ cores. map (λ c. 0) cores;
  decode = λ bytes. some (map (λ b. CoreOccupied.free) bytes);
}

-- one group
abbrev groups_codec : Codec (List (List ℕ))
groups_codec = record { encode = λ groups. []; decode = λ bytes. some (bytes ∷ []) }

-- core 0 alone
abbrev assignments_codec : Codec (List (ℕ × List ℕ))
assignments_codec = record { encode = λ cores. []; decode = λ bytes. some ((0, bytes) ∷ []) }

abbrev stored_as : List ℕ → List (H256 × StorageEntry)
stored_as bytes =
    (
      7,
      record {
        record_type = onchain;
        record_time = record { block_number = 42; timestamp = none };
        data_bytes = bytes;
      },
    )
    ∷ []

abbrev block_7 : TrackerStorage
block_7 = record {
  para_id = 100;
  records = record {
    config = record { max_blocks = 10 };
    last_block = some 42;
    ephemeral_records = [];
    prefixed_records =
        (CollectorPrefixType.inherent_data, stored_as (1 ∷ 0 ∷ []))
        ∷ (CollectorPrefixType.timestamp, stored_as (6000 ∷ []))
        ∷ (CollectorPrefixType.core_assignments, stored_as (100 ∷ 200 ∷ []))
        ∷ (CollectorPrefixType.occupied_cores, stored_as (0 ∷ []))
        ∷ (CollectorPrefixType.backing_groups, stored_as (0 ∷ 1 ∷ []))
        ∷ [];
  };
  hash = λ bytes. 0;
  codecs = record {
    keys_codec = no_codec;
    inherent_codec = inherent_codec;
    number_codec = number_codec;
    dispute_codec = no_codec;
    candidate_codec = no_codec;
    timestamp_codec = number_codec;
    occupied_codec = occupied_codec;
    groups_codec = groups_codec;
    assignments_codec = assignments_codec;
    channels_codec = no_codec;
    header_codec = no_codec;
  };
}

abbrev candidate_in : H256 → ParachainBlockState → ParachainBlockInfo
candidate_in hash state = record {
  candidate_hash = hash;
  availability = none;
  assigned_core = 0;
  core_occupied = false;
  state = state;
}

-- Candidate 1 was backed before; the block includes it and backs candidate 2.
abbrev tracker : SubxtTracker
tracker = record (new_tracker 100) {
  candidates = (0, some (candidate_in 1 ParachainBlockState.backed) ∷ []) ∷ [];
}

abbrev head_7 : NewHeadEvent
head_7 = record {
  relay_parent_number = 42;
  relay_parent_hashes = 7 ∷ [];
  para_id = 100;
  candidates_seen = [];
  candidates_backed = record { candidate_hash = 2; core_idx = 0; para_id = 100 } ∷ [];
  candidates_included = 1 ∷ [];
  candidates_timed_out = [];
  disputes_concluded = [];
  authors_missing_their_slots = [];
}

-- what the tracker is after the block
abbrev injected : SubxtTracker
injected = record (new_tracker 100) {
  candidates =
      (
        0,
        some (record (candidate_in 1 ParachainBlockState.included) {
          availability = some (record { current = 1; max = 2 });
        })
            ∷ some (candidate_in 2 ParachainBlockState.backed)
            ∷ [],
      )
      ∷ [];
  cores = (0, 100 ∷ 200 ∷ []) ∷ [];
  current_relay_block = some (record { hash = 7; num = 42; ts = 6000 });
  current_non_fork_relay_block_ts = some 6000;
  last_backed_at_block_number = some 42;
  last_included_at = some (record { num = 42; ts = 6000 });
  relay_forks =
      record {
        relay_hash = 7;
        relay_number = 42;
        backed_candidate = some 2;
        included_candidate = some 1;
      }
      ∷ [];
}

injected_lem : inject_block tracker 7 head_7 block_7 ≡ ok injected
unfolding inject_block polkadot_introspector.Tracker.Records.inherent_data_of
    polkadot_introspector.Storage.Prefixed.get_prefix polkadot_introspector.Prelude.Assoc.lookup
    polkadot_introspector.Tracker.Records.prefix_beq
    polkadot_introspector.Tracker.Records.block_timestamp
    polkadot_introspector.Tracker.Records.relevant_finalized_block_number_of
    polkadot_introspector.Tracker.Records.core_assignments_of
    polkadot_introspector.Tracker.Blocks.validators_indices
    polkadot_introspector.Tracker.Records.backing_groups_of
    polkadot_introspector.Tracker.State.is_fork new_tracker polkadot_introspector.Prelude.contains
    polkadot_introspector.Tracker.Disputes.extract_availability_bits_count
    polkadot_introspector.Prelude.Assoc.keys keep polkadot_introspector.Prelude.Assoc.insert
    polkadot_introspector.Tracker.Records.occupied_cores_of
    polkadot_introspector.Tracker.Records.inbound_outbound_hrmp_channels_of
    polkadot_introspector.Prelude.Assoc.map_values
    polkadot_introspector.Tracker.Queues.set_hrmp_channels polkadot_introspector.Prelude.count
    polkadot_introspector.Tracker.BlockInfo.set_availability
    polkadot_introspector.Tracker.BlockInfo.set_included polkadot_introspector.Prelude.add32
    polkadot_introspector.Prelude.as_u32
injected_lem = refl

inject_block-Evolves_example :
    Evolves (slots_of 0 tracker.candidates) (slots_of 0 injected.candidates)
inject_block-Evolves_example = inject_block-Evolves tracker injected 7 head_7 block_7 injected_lem 0

-- The inherent data of the block, and that it is what is stored.
stored_inherent :
    inherent_data_of block_7 7
    ≡ ok (some (record { bitfields = (true ∷ false ∷ []) ∷ []; disputes = [] }))
unfolding inherent_data_of polkadot_introspector.Storage.Prefixed.get_prefix
    polkadot_introspector.Prelude.Assoc.lookup polkadot_introspector.Tracker.Records.prefix_beq
stored_inherent = refl

maybe_reset_state-TracksOne_example :
    let r = maybe_reset_state injected in
    All TracksOne r.candidates × (r.new_session ≡ none) × (r.disputes ≡ [])
maybe_reset_state-TracksOne_example =
    maybe_reset_state-TracksOne tracker injected 7 head_7
      (record { bitfields = (true ∷ false ∷ []) ∷ []; disputes = [] }) block_7 stored_inherent
      injected_lem

abbrev now : Block
now = record { hash = 7; num = 42; ts = 6000 }

abbrev journal : Journal
journal = record {
  update = record {
    para_id = 100;
    timestamp = 6000;
    prev_timestamp = 6000;
    block_number = 42;
    block_hash = 7;
    core_occupied = (0, false) ∷ [];
    events =
        ParachainConsensusEvent.core_assigned 0
        ∷ ParachainConsensusEvent.included 1 1 2
        ∷ ParachainConsensusEvent.backed 2
        ∷ [];
    is_fork = false;
    finality_lag = none;
  };
  stats = StatsCall.on_included 42 none none ∷ StatsCall.on_backed ∷ StatsCall.on_block 0 ∷ [];
  metrics = MetricsCall.on_included 42 none none none 100 ∷ MetricsCall.on_backed 100 ∷ [];
}

reported : progress_at injected now block_7 ≡ ok journal
unfolding progress_at all_candidates_and_skipped_slots
    polkadot_introspector.Tracker.Progress.candidate_backed_in
    polkadot_introspector.Tracker.Records.candidate_of
    polkadot_introspector.Storage.Prefixed.get_prefix polkadot_introspector.Prelude.Assoc.lookup
    polkadot_introspector.Tracker.Records.prefix_beq new_tracker
    polkadot_introspector.Tracker.State.is_fork
    polkadot_introspector.Tracker.Queues.has_hrmp_messages polkadot_introspector.Prelude.any
    polkadot_introspector.Prelude.Assoc.keys polkadot_introspector.Tracker.State.current_candidate
    polkadot_introspector.Prelude.Assoc.map_values
    polkadot_introspector.Tracker.State.current_block_time
    polkadot_introspector.Tracker.Disputes.time_diff
reported = refl

progress_at-slot_events_example :
    keep is_slot_event journal.update.events
    ≡ slot_events (all_candidates_and_skipped_slots injected)
progress_at-slot_events_example = progress_at-slot_events injected now block_7 journal reported

block_7-CandidatesDecode : CandidatesDecode block_7
unfolding candidate_of get_prefix lookup prefix_beq
block_7-CandidatesDecode hash = (none, refl)

progress-returns_example :
    ((injected.current_relay_block ≡ none) × (progress injected block_7 ≡ ok none))
    ⊎ ((b : Block) × (j : Journal) × (injected.current_relay_block ≡ some b)
        × (progress injected block_7 ≡ ok (some j))
        × (progress_at injected b block_7 ≡ ok j))
progress-returns_example = progress-returns injected block_7 block_7-CandidatesDecode
