-- ===== src/Tracker/Types.antt =====
-- The data of parachain-tracer/src/types.rs and essentials/src/types.rs that the tracker handles.
use polkadot_introspector.Prelude.{ℕ, Bool, Option, List}
use polkadot_introspector.Tracker.BlockInfo.{H256}

abbrev pub Timestamp : Type 0
Timestamp = ℕ

-- An account, as the number that its 32 bytes spell.
abbrev pub AccountId32 : Type 0
AccountId32 = ℕ

-- One bit for each availability core.
abbrev pub AvailabilityBitfield : Type 0
AvailabilityBitfield = List Bool

pub data ValidDisputeStatementKind : Type 0 where
  explicit : ValidDisputeStatementKind
  backing_seconded backing_valid : H256 → ValidDisputeStatementKind
  approval_checking : ValidDisputeStatementKind
  approval_checking_multiple_candidates : List H256 → ValidDisputeStatementKind

pub data InvalidDisputeStatementKind : Type 0 where
  explicit : InvalidDisputeStatementKind

pub data DisputeStatement : Type 0 where
  valid_statement : ValidDisputeStatementKind → DisputeStatement
  invalid_statement : InvalidDisputeStatementKind → DisputeStatement

pub record DisputeStatementSet : Type 0 where
  pub candidate_hash : H256
  pub session : ℕ
  pub statements : List (DisputeStatement × ℕ)

pub record InherentData : Type 0 where
  pub bitfields : List AvailabilityBitfield
  pub disputes : List DisputeStatementSet

pub data SubxtDisputeResult : Type 0 where
  valid invalid timed_out : SubxtDisputeResult

pub record SubxtDispute : Type 0 where
  pub relay_parent_block : H256
  pub candidate_hash : H256

pub record DisputeInfo : Type 0 where
  pub initiated : ℕ
  pub initiator_indices : List ℕ
  pub session_index : ℕ
  pub dispute : SubxtDispute
  pub parachain_id : ℕ
  pub outcome : Option SubxtDisputeResult
  pub concluded : Option ℕ

pub record SubxtHrmpChannel : Type 0 where
  pub max_capacity : ℕ
  pub max_total_size : ℕ
  pub max_message_size : ℕ
  pub msg_count : ℕ
  pub total_size : ℕ
  pub mqc_head : Option H256
  pub sender_deposit : ℕ
  pub recipient_deposit : ℕ

-- A block header, with the fields that the code reads.
pub record Header : Type 0 where
  pub number : ℕ
  pub parent_hash : H256

pub data CoreOccupied : Type 0 where
  free scheduled occupied : CoreOccupied

pub record BackedCandidateInfo : Type 0 where
  pub candidate_hash : H256
  pub core_idx : ℕ
  pub para_id : ℕ

pub record NewHeadEvent : Type 0 where
  pub relay_parent_number : ℕ
  pub relay_parent_hashes : List H256
  pub para_id : ℕ
  pub candidates_seen : List H256
  pub candidates_backed : List BackedCandidateInfo
  pub candidates_included : List H256
  pub candidates_timed_out : List H256
  pub disputes_concluded : List DisputeInfo
  pub authors_missing_their_slots : List AccountId32

pub record ForkTracker : Type 0 where
  pub relay_hash : H256
  pub relay_number : ℕ
  pub backed_candidate : Option H256
  pub included_candidate : Option H256

-- The text that stands for a validator: its account in SS58, or one of the two placeholders
-- "??? (no such validator index .. know .. validators)" and "??? (no session keys)".
pub data ValidatorAddress : Type 0 where
  identity : AccountId32 → ValidatorAddress
  no_such_validator : ℕ → ℕ → ValidatorAddress
  no_session_keys : ValidatorAddress

pub record DisputesTracker : Type 0 where
  pub candidate : H256
  pub outcome : SubxtDisputeResult
  pub voted_for : ℕ
  pub voted_against : ℕ
  pub initiators : List (ℕ × ValidatorAddress)
  pub misbehaving_validators : List (ℕ × ValidatorAddress)
  pub resolve_time : ℕ
  pub session_index : ℕ

pub record Block : Type 0 where
  pub hash : H256
  pub num : ℕ
  pub ts : Timestamp

pub record BlockWithoutHash : Type 0 where
  pub num : ℕ
  pub ts : Timestamp

-- `impl From<Block> for BlockWithoutHash`
abbrev pub without_hash : Block → BlockWithoutHash
without_hash b = record { num = b.num; ts = b.ts }

pub data ParachainConsensusEvent : Type 0 where
  core_assigned : ℕ → ParachainConsensusEvent
  backed : H256 → ParachainConsensusEvent
  included : H256 → ℕ → ℕ → ParachainConsensusEvent
  dropped : H256 → ParachainConsensusEvent
  disputed : DisputesTracker → ParachainConsensusEvent
  skipped_slot : ParachainConsensusEvent
  pending_availability : H256 → ParachainConsensusEvent
  slow_availability : ℕ → ℕ → ParachainConsensusEvent
  slow_bitfield_propagation : ℕ → ℕ → ParachainConsensusEvent
  new_session : ℕ → ParachainConsensusEvent
  message_queues :
      List (ℕ × SubxtHrmpChannel) → List (ℕ × SubxtHrmpChannel) → ParachainConsensusEvent

pub record ParachainProgressUpdate : Type 0 where
  pub para_id : ℕ
  pub timestamp : Timestamp
  pub prev_timestamp : Timestamp
  pub block_number : ℕ
  pub block_hash : H256
  pub core_occupied : List (ℕ × Bool)
  pub events : List ParachainConsensusEvent
  pub is_fork : Bool
  pub finality_lag : Option ℕ

-- `CandidateInclusionRecord` and `CandidateRecord` of
-- essentials/src/collector/candidate_record.rs.
pub record CandidateInclusionRecord : Type 0 where
  pub parachain_id : ℕ
  pub backed : ℕ
  pub included : Option ℕ
  pub timedout : Option ℕ
  pub core_idx : ℕ
  pub relay_parent : H256
  pub relay_parent_number : ℕ

pub record DisputeResult : Type 0 where
  pub outcome : SubxtDisputeResult
  pub concluded_block : ℕ

pub record CandidateDisputed : Type 0 where
  pub disputed : ℕ
  pub concluded : Option DisputeResult

pub record CandidateRecord : Type 0 where
  pub candidate_first_seen : ℕ
  pub candidate_inclusion : CandidateInclusionRecord
  pub candidate_disputed : Option CandidateDisputed
