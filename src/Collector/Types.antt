-- ===== src/Collector/Types.antt =====
-- The data of essentials/src/collector/mod.rs, with the events of essentials/src/chain_events.rs and
-- essentials/src/chain_subscription.rs that it handles.
use polkadot_introspector.Prelude.{ℕ, Bool, Option, List}
use polkadot_introspector.Storage.Prefixed.{Prefixed}
use polkadot_introspector.Tracker.BlockInfo.{H256}
use polkadot_introspector.Tracker.Records.{CollectorPrefixType, Codecs}
use polkadot_introspector.Tracker.Types.{
  AccountId32, BackedCandidateInfo, DisputeInfo, NewHeadEvent, SubxtDispute, SubxtDisputeResult,
  Header,
}

pub data SubxtCandidateEventType : Type 0 where
  backed included timed_out : SubxtCandidateEventType

pub record SubxtCandidateEvent : Type 0 where
  pub candidate_hash : H256
  pub relay_parent : H256
  pub parachain_id : ℕ
  pub event_type : SubxtCandidateEventType
  pub core_idx : ℕ

pub data ChainEvent : Type 0 where
  new_best_head : H256 → Header → ChainEvent
  new_finalized_head : H256 → Header → ChainEvent
  dispute_initiated : SubxtDispute → ChainEvent
  dispute_concluded : SubxtDispute → SubxtDisputeResult → ChainEvent
  candidate_changed : SubxtCandidateEvent → ChainEvent

pub data ChainSubscriptionEvent : Type 0 where
  new_best_head : H256 → Header → ChainSubscriptionEvent
  new_finalized_block : H256 → Header → ChainSubscriptionEvent
  heartbeat termination : ChainSubscriptionEvent

pub data CollectorSubscribeMode : Type 0 where
  best finalized : CollectorSubscribeMode

-- The texts of errors are left out.
pub data TerminationReason : Type 0 where
  normal abnormal : TerminationReason

pub data CollectorUpdateEvent : Type 0 where
  new_head : NewHeadEvent → CollectorUpdateEvent
  new_session : ℕ → CollectorUpdateEvent
  terminated : TerminationReason → CollectorUpdateEvent

pub data CollectorError : Type 0 where
  non_fatal executor_fatal send_fatal : CollectorError

-- `WebSocketEventType` and `WebSocketUpdateEvent` of essentials/src/collector/ws.rs
pub data WebSocketEventType : Type 0 where
  backed : WebSocketEventType
  dispute_initiated : H256 → WebSocketEventType
  dispute_concluded : H256 → SubxtDisputeResult → WebSocketEventType
  included timed_out : ℕ → WebSocketEventType

pub record WebSocketUpdateEvent : Type 0 where
  pub candidate_hash : H256
  pub parachain_id : ℕ
  pub ts : ℕ
  pub event : WebSocketEventType

-- One end of a channel: whether the receiver is still there, and what was sent to it, the latest
-- last, over the normal and over the priority channel.
pub record Sender (M : Type 0) : Type 0 where
  pub connected : Bool
  pub messages : List M
  pub priority_messages : List M

-- The maps by parachain are lists of pairs.
pub record CollectorState : Type 0 where
  pub current_relay_chain_block_number : ℕ
  pub current_relay_chain_block_hashes : List H256
  pub candidates_seen : List (ℕ × List H256)
  pub disputes_seen : List (ℕ × List DisputeInfo)
  pub candidates_backed : List BackedCandidateInfo
  pub candidates_included : List H256
  pub candidates_timed_out : List H256
  pub current_session_index : ℕ
  pub last_finalized_block_number : Option ℕ
  pub authors_missing_their_slots : List AccountId32
  pub paras_seen : List (ℕ × ℕ)

-- `storage` is the storage behind the API. The codecs and the hasher are parameters of the tracker's
-- reads too.
pub record Collector : Type 0 where
  pub storage : Prefixed H256 CollectorPrefixType
  pub codecs : Codecs
  pub hash : List ℕ → H256
  pub to_websocket : Option (Sender WebSocketUpdateEvent)
  pub subscribe_channels : List (ℕ × List (Sender CollectorUpdateEvent))
  pub broadcast_channels : List (Sender CollectorUpdateEvent)
  pub state : CollectorState
  pub subscribe_mode : CollectorSubscribeMode
  pub hrmp_channels : Bool
  pub max_parachain_stall : ℕ
