-- ===== src/Tracker/Records.antt =====
-- parachain-tracer/src/tracker_storage.rs: the tracker's reads of the collector's storage. A request
-- to the storage task is answered from the prefixed storage; `into_inner().unwrap()` panics on a
-- record that does not decode. The derived SCALE codecs and the chain's hasher are parameters.
use polkadot_introspector.Prelude.{
  ℕ, ◌/◌, ◌%◌, ◌^◌, ◌≡◌, ◌↔◌, refl, Bool, true, false, Option, none, some, List, [], ◌∷◌, Eq,
  Outcome, ok, ◌>>=◌, expect, nat_eq,
}
use native.Mathlib.Decide.{ℕ_discrete}
use polkadot_introspector.Storage.Entry.{StorageEntry, Codec, into_inner}
use polkadot_introspector.Storage.Prefixed.{Prefixed, get_prefix}
use polkadot_introspector.Tracker.BlockInfo.{H256}
use polkadot_introspector.Tracker.Queues.{Channels}
use polkadot_introspector.Tracker.Types.{
  AccountId32, Timestamp, InherentData, DisputeInfo, CandidateRecord, CoreOccupied, Header,
}

-- `CollectorPrefixType` of essentials/src/collector/mod.rs
pub data CollectorPrefixType : Type 0 where
  timestamp : CollectorPrefixType
  candidate : ℕ → CollectorPrefixType
  candidates_parachains relay_block_header relevant_finalized_block_number : CollectorPrefixType
  account_keys core_assignments occupied_cores backing_groups inherent_data : CollectorPrefixType
  dispute inbound_outbound_hrmp_channels : ℕ → CollectorPrefixType

CollectorPrefixType-discrete : Discrete CollectorPrefixType
CollectorPrefixType-discrete = hlevel ℕ_discrete

abbrev test {ℓ} : {A : Type ℓ} → Dec A → Bool
test (yes h) = true
test (no h) = false

test_iff {ℓ} : {A : Type ℓ} (d : Dec A) → (test d ≡ true) ↔ A
test_iff (yes h) = (λ e. h, λ a. refl)
test_iff (no h) = (λ e. cc, λ a. absurd (h a))

-- the derived `PartialEq`
unfoldable pub prefix_beq : CollectorPrefixType → CollectorPrefixType → Bool
unfolding CollectorPrefixType-discrete ℕ_discrete
prefix_beq p q = test (CollectorPrefixType-discrete p q)

pub prefix_beq_iff : (p q : CollectorPrefixType) → (prefix_beq p q ≡ true) ↔ (p ≡ q)
unfolding prefix_beq
prefix_beq_iff p q = test_iff (CollectorPrefixType-discrete p q)

instance abbrev pub prefix_eq : Eq CollectorPrefixType
prefix_eq = record { same = prefix_beq; decides = prefix_beq_iff }

pub record Codecs : Type 0 where
  pub keys_codec : Codec (List AccountId32)
  pub inherent_codec : Codec InherentData
  pub number_codec : Codec ℕ
  pub dispute_codec : Codec DisputeInfo
  pub candidate_codec : Codec CandidateRecord
  pub timestamp_codec : Codec Timestamp
  pub occupied_codec : Codec (List CoreOccupied)
  pub groups_codec : Codec (List (List ℕ))
  pub assignments_codec : Codec (List (ℕ × List ℕ))
  pub channels_codec : Codec (Channels × Channels)
  pub header_codec : Codec Header

pub record TrackerStorage : Type 0 where
  pub para_id : ℕ
  pub records : Prefixed H256 CollectorPrefixType
  pub hash : List ℕ → H256
  pub codecs : Codecs
  pub open codecs use *

-- `session_index.to_be_bytes()`
unfoldable pub to_be_bytes : ℕ → List ℕ
to_be_bytes n = n / 2 ^ 24 % 256 ∷ n / 2 ^ 16 % 256 ∷ n / 2 ^ 8 % 256 ∷ n % 256 ∷ []

-- `.map(|v| v.into_inner().unwrap())`
unfoldable pub decoded : {T : Type 0} → Codec T → Option StorageEntry → Outcome (Option T)
unfolding into_inner
decoded c none = ok none
decoded c (some entry) = do value ← expect (into_inner c entry); ok (some value)

unfoldable pub session_keys : TrackerStorage → ℕ → Outcome (Option (List AccountId32))
unfolding decoded to_be_bytes
session_keys st session_index =
    decoded st.keys_codec (get_prefix st.records account_keys (st.hash (to_be_bytes session_index)))

unfoldable pub inherent_data_of : TrackerStorage → H256 → Outcome (Option InherentData)
unfolding decoded
inherent_data_of st block_hash =
    decoded st.inherent_codec (get_prefix st.records inherent_data block_hash)

unfoldable pub relevant_finalized_block_number_of : TrackerStorage → H256 → Outcome (Option ℕ)
unfolding decoded
relevant_finalized_block_number_of st block_hash =
    decoded st.number_codec (get_prefix st.records relevant_finalized_block_number block_hash)

unfoldable pub dispute_of : TrackerStorage → H256 → Outcome (Option DisputeInfo)
unfolding decoded
dispute_of st block_hash =
    decoded st.dispute_codec (get_prefix st.records (dispute st.para_id) block_hash)

unfoldable pub candidate_of : TrackerStorage → H256 → Outcome (Option CandidateRecord)
unfolding decoded
candidate_of st candidate_hash =
    decoded st.candidate_codec (get_prefix st.records (candidate st.para_id) candidate_hash)

unfoldable pub block_timestamp : TrackerStorage → H256 → Outcome (Option Timestamp)
unfolding decoded
block_timestamp st block_hash =
    decoded st.timestamp_codec (get_prefix st.records timestamp block_hash)

unfoldable pub occupied_cores_of : TrackerStorage → H256 → Outcome (Option (List CoreOccupied))
unfolding decoded
occupied_cores_of st block_hash =
    decoded st.occupied_codec (get_prefix st.records occupied_cores block_hash)

unfoldable pub backing_groups_of : TrackerStorage → H256 → Outcome (Option (List (List ℕ)))
unfolding decoded
backing_groups_of st block_hash =
    decoded st.groups_codec (get_prefix st.records backing_groups block_hash)

unfoldable pub core_assignments_of : TrackerStorage → H256 → Outcome (Option (List (ℕ × List ℕ)))
unfolding decoded
core_assignments_of st block_hash =
    decoded st.assignments_codec (get_prefix st.records core_assignments block_hash)

unfoldable pub inbound_outbound_hrmp_channels_of :
    TrackerStorage → H256 → Outcome (Option (Channels × Channels))
unfolding decoded
inbound_outbound_hrmp_channels_of st block_hash =
    decoded st.channels_codec
      (get_prefix st.records (inbound_outbound_hrmp_channels st.para_id) block_hash)
