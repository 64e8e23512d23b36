-- ===== src/Tracker/Tests.antt =====
-- Examples of the tracker: its votes, bits, queues, block times, backing and slots.
use polkadot_introspector.Tracker.BlockInfo.{set_dropped}
use polkadot_introspector.Prelude.{any}
use polkadot_introspector.Prelude.{ℕ, ◌≡◌, true, false, Option, none, some, List, [], ◌∷◌, nat_eq}
use polkadot_introspector.Tracker.BlockInfo.{ParachainBlockInfo, ParachainBlockState}
use polkadot_introspector.Tracker.Types.{
  valid_statement, invalid_statement, ValidDisputeStatementKind, InvalidDisputeStatementKind,
  DisputeStatementSet, AvailabilityBitfield, SubxtHrmpChannel, Block, BackedCandidateInfo,
}
use polkadot_introspector.Tracker.Queues.{MessageQueuesTracker}
use polkadot_introspector.Tracker.State.{Slots, SubxtTracker, new_tracker}
use polkadot_introspector.Tracker.Blocks.Timeline.{enter_history, Follows, enter_history-Follows}
use polkadot_introspector.Tracker.Backing.{drop_slots}
use polkadot_introspector.Tracker.Backing.Dropping.{superseded, drop_slots-superseded}

-- two votes for the candidate and one against it
abbrev three_votes : DisputeStatementSet
three_votes = record {
  candidate_hash = 77;
  session = 4;
  statements =
      (valid_statement ValidDisputeStatementKind.explicit, 0)
      ∷ (invalid_statement InvalidDisputeStatementKind.explicit, 1)
      ∷ (valid_statement ValidDisputeStatementKind.approval_checking, 2)
      ∷ [];
}

abbrev two_bitfields : List AvailabilityBitfield
two_bitfields = (true ∷ false ∷ []) ∷ (true ∷ true ∷ []) ∷ []

abbrev channel_of : ℕ → SubxtHrmpChannel
channel_of total = record {
  max_capacity = 8;
  max_total_size = 100;
  max_message_size = 50;
  msg_count = 1;
  total_size = total;
  mqc_head = none;
  sender_deposit = 0;
  recipient_deposit = 0;
}

abbrev queues : MessageQueuesTracker
queues = record {
  inbound_hrmp_channels = (2000, channel_of 0) ∷ [];
  outbound_hrmp_channels = (2001, channel_of 30) ∷ [];
}

abbrev block_at : ℕ → ℕ → ℕ → Block
block_at hash num ts = record { hash = hash; num = num; ts = ts }

-- block 42, a fork of it, and block 41 before them
abbrev forked : List Block
forked = block_at 3 42 6100 ∷ block_at 2 42 6000 ∷ block_at 1 41 0 ∷ []

enter_history-Follows_example : Follows (enter_history (new_tracker 100) forked) forked
enter_history-Follows_example = enter_history-Follows 100 forked

abbrev mine : BackedCandidateInfo
mine = record { candidate_hash = 5; core_idx = 0; para_id = 100 }

abbrev backed_before : SubxtTracker
backed_before = record (new_tracker 100) { last_backed_at_block_number = some 41 }

abbrev candidate_in : ℕ → ParachainBlockState → Option ParachainBlockInfo
candidate_in hash state = some (record {
  candidate_hash = hash;
  availability = none;
  assigned_core = 0;
  core_occupied = false;
  state = state;
})

abbrev four_slots : Slots
four_slots =
    candidate_in 1 ParachainBlockState.included
    ∷ candidate_in 2 ParachainBlockState.pending_availability
    ∷ none
    ∷ candidate_in 3 ParachainBlockState.backed
    ∷ []

drop_slots-superseded_example :
    drop_slots four_slots
    ≡ candidate_in 1 ParachainBlockState.included
      ∷ candidate_in 2 ParachainBlockState.dropped
      ∷ none
      ∷ candidate_in 3 ParachainBlockState.backed
      ∷ []
unfolding superseded any set_dropped
drop_slots-superseded_example = drop_slots-superseded four_slots

abbrev with_slots : SubxtTracker
with_slots = record (new_tracker 100) { candidates = (0, four_slots) ∷ [] }
