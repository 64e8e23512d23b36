-- ===== src/Collector/Node.antt =====
-- The relay chain's node, as essentials/src/api/executor.rs answers for it: each call is a function of
-- the block's hash, and `none` is a `RequestExecutorError`. It is a parameter of the collector.
use polkadot_introspector.Prelude.{ℕ, Option, List}
use polkadot_introspector.Tracker.BlockInfo.{H256}
use polkadot_introspector.Tracker.Queues.{Channels}
use polkadot_introspector.Tracker.Types.{AccountId32, Timestamp, InherentData, CoreOccupied, Header}
use polkadot_introspector.Collector.Types.{SubxtCandidateEvent}
use polkadot_introspector.Collector.Disputes.{DecodedDispute}

-- An inner `Option` is the one of the call's result. `rand` is the 256-bit number that the code reads
-- off the hash of the randomness and a slot.
pub record Node : Type 0 where
  pub get_block_timestamp : H256 → Option Timestamp
  pub get_session_index : H256 → Option ℕ
  pub get_session_account_keys : ℕ → H256 → Option (Option (List AccountId32))
  pub get_inbound_outbound_hrmp_channels : H256 → List ℕ → Option (List (ℕ × Channels × Channels))
  pub extract_parainherent_data : H256 → Option InherentData
  pub get_occupied_cores : H256 → Option (List CoreOccupied)
  pub get_backing_groups : H256 → Option (List (List ℕ))
  pub get_claim_queue : H256 → Option (List (ℕ × List ℕ))
  pub get_block_head : H256 → Option (Option Header)
  pub get_babe_current_slot : H256 → Option (Option ℕ)
  pub get_babe_randomness : H256 → Option (Option ℕ)
  pub get_babe_authorities : H256 → Option (List ℕ)
  pub get_babe_key_owner : H256 → ℕ → Option (Option AccountId32)
  pub rand : ℕ → ℕ → ℕ
  pub get_candidate_events : H256 → Option (List SubxtCandidateEvent)
  pub get_disputes : H256 → Option (List DecodedDispute)
