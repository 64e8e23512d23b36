-- ===== src/Collector/Tests/Sample.antt =====
-- Sample data: a node that answers little, a codec for the records of candidates, a collector.
use polkadot_introspector.Prelude.{
  ℕ, zero, suc, ◌≡◌, refl, Bool, false, Option, none, some, List, [], ◌∷◌,
}
use polkadot_introspector.Storage.Entry.{Codec, StorageEntry, RecordType}
use polkadot_introspector.Tracker.Records.{Codecs, candidate, candidates_parachains, dispute}
use polkadot_introspector.Tracker.Types.{
  CandidateRecord, CandidateDisputed, DisputeInfo, DisputeResult, SubxtDispute, SubxtDisputeResult,
  valid, invalid, timed_out,
}
use polkadot_introspector.Collector.Types.{
  Collector, CollectorSubscribeMode, ChainSubscriptionEvent,
}
use polkadot_introspector.Collector.Node.{Node}
use polkadot_introspector.Collector.Run.{Input}
use polkadot_introspector.Collector.Stored.{RoundTrips}

-- A node with one timestamp and one session, and nothing else.
abbrev pub quiet_node : Node
quiet_node = record {
  get_block_timestamp = λ h. some 60;
  get_session_index = λ h. some 5;
  get_session_account_keys = λ s h. some (some (1 ∷ []));
  get_inbound_outbound_hrmp_channels = λ h ids. some [];
  extract_parainherent_data = λ h. some (record { bitfields = []; disputes = [] });
  get_occupied_cores = λ h. some [];
  get_backing_groups = λ h. some [];
  get_claim_queue = λ h. some [];
  get_block_head = λ h. some none;
  get_babe_current_slot = λ h. some none;
  get_babe_randomness = λ h. some none;
  get_babe_authorities = λ h. some [];
  get_babe_key_owner = λ h k. some none;
  rand = λ r s. 0;
  get_candidate_events = λ h. some [];
  get_disputes = λ h. some [];
}

-- An option as two numbers.
abbrev encode_option : Option ℕ → ℕ × ℕ
encode_option none = (0, 0)
encode_option (some n) = (1, n)

abbrev decode_option : ℕ → ℕ → Option ℕ
decode_option zero n = none
decode_option (suc m) n = some n

abbrev encode_outcome : SubxtDisputeResult → ℕ
encode_outcome valid = 0
encode_outcome invalid = 1
encode_outcome timed_out = 2

abbrev decode_outcome : ℕ → SubxtDisputeResult
decode_outcome zero = valid
decode_outcome (suc zero) = invalid
decode_outcome (suc (suc n)) = timed_out

abbrev encode_concluded : Option DisputeResult → List ℕ
encode_concluded none = []
encode_concluded (some r) = encode_outcome r.outcome ∷ r.concluded_block ∷ []

abbrev decode_concluded : List ℕ → Option DisputeResult
decode_concluded (o ∷ n ∷ rest) = some (record { outcome = decode_outcome o; concluded_block = n })
decode_concluded _ = none

abbrev encode_disputed : Option CandidateDisputed → List ℕ
encode_disputed none = []
encode_disputed (some d) = d.disputed ∷ encode_concluded d.concluded

abbrev decode_disputed : List ℕ → Option CandidateDisputed
decode_disputed [] = none
decode_disputed (at ∷ rest) = some (record { disputed = at; concluded = decode_concluded rest })

abbrev encode_candidate : CandidateRecord → List ℕ
encode_candidate r =
    let i = r.candidate_inclusion in
    r.candidate_first_seen
    ∷ i.parachain_id
    ∷ i.backed
    ∷ (encode_option i.included).0
    ∷ (encode_option i.included).1
    ∷ (encode_option i.timedout).0
    ∷ (encode_option i.timedout).1
    ∷ i.core_idx
    ∷ i.relay_parent
    ∷ i.relay_parent_number
    ∷ encode_disputed r.candidate_disputed

abbrev decode_candidate_bytes : List ℕ → Option CandidateRecord
decode_candidate_bytes (seen ∷ para ∷ backed ∷ it ∷ i ∷ tt' ∷ t ∷ core ∷ parent ∷ number ∷ rest) =
    some (record {
      candidate_first_seen = seen;
      candidate_inclusion = record {
        parachain_id = para;
        backed = backed;
        included = decode_option it i;
        timedout = decode_option tt' t;
        core_idx = core;
        relay_parent = parent;
        relay_parent_number = number;
      };
      candidate_disputed = decode_disputed rest;
    })
decode_candidate_bytes _ = none

decode_option_lem : (o : Option ℕ) → decode_option (encode_option o).0 (encode_option o).1 ≡ o
decode_option_lem none = refl
decode_option_lem (some n) = refl

decode_outcome_lem : (o : SubxtDisputeResult) → decode_outcome (encode_outcome o) ≡ o
decode_outcome_lem valid = refl
decode_outcome_lem invalid = refl
decode_outcome_lem timed_out = refl

decode_concluded_lem : (o : Option DisputeResult) → decode_concluded (encode_concluded o) ≡ o
decode_concluded_lem none = refl
decode_concluded_lem (some r) = rw (decode_outcome_lem r.outcome) refl

decode_disputed_lem : (o : Option CandidateDisputed) → decode_disputed (encode_disputed o) ≡ o
decode_disputed_lem none = refl
decode_disputed_lem (some d) = rw (decode_concluded_lem d.concluded) refl

abbrev pub candidate_codec : Codec CandidateRecord
candidate_codec = record { encode = encode_candidate; decode = decode_candidate_bytes }

pub candidate_codec-RoundTrips : RoundTrips candidate_codec
candidate_codec-RoundTrips r =
    let i = r.candidate_inclusion in
    rw
      (
        decode_option_lem i.included,
        decode_option_lem i.timedout,
        decode_disputed_lem r.candidate_disputed,
      )
      refl

-- A codec that reads one value, whatever is written.
abbrev constant : {T : Type 0} → T → Codec T
constant x = record { encode = λ y. []; decode = λ bytes. some x }

abbrev number_codec : Codec ℕ
number_codec = record {
  encode = λ n. n ∷ [];
  decode = λ bytes. elim bytes [ [] ↦ none | n ∷ rest ↦ some n ];
}

-- A candidate of parachain 7 that block 3 backed.
abbrev pub backed_record : CandidateRecord
backed_record = record {
  candidate_first_seen = 1000;
  candidate_inclusion = record {
    parachain_id = 7;
    backed = 3;
    included = none;
    timedout = none;
    core_idx = 0;
    relay_parent = 8;
    relay_parent_number = 2;
  };
  candidate_disputed = none;
}

abbrev pub the_dispute : SubxtDispute
the_dispute = record { relay_parent_block = 9; candidate_hash = 40 }

-- It was initiated at block 3.
abbrev pub the_info : DisputeInfo
the_info = record {
  initiated = 3;
  initiator_indices = 1 ∷ [];
  session_index = 5;
  dispute = the_dispute;
  parachain_id = 7;
  outcome = none;
  concluded = none;
}

abbrev codecs : Codecs
codecs = record {
  keys_codec = constant [];
  inherent_codec = constant (record { bitfields = []; disputes = [] });
  number_codec = number_codec;
  dispute_codec = constant the_info;
  candidate_codec = candidate_codec;
  timestamp_codec = number_codec;
  occupied_codec = constant [];
  groups_codec = constant [];
  assignments_codec = constant [];
  channels_codec = constant ([], []);
  header_codec = constant (record { number = 2; parent_hash = 6 });
}

abbrev entry : List ℕ → StorageEntry
entry bytes = record {
  record_type = RecordType.onchain;
  record_time = record { block_number = 3; timestamp = some 1000 };
  data_bytes = bytes;
}

-- Candidate 40 and its dispute are stored, and parachain 7 is followed over one channel.
abbrev pub with_channel : Bool → Collector
with_channel connected = record {
  storage = record {
    config = record { max_blocks = 64 };
    last_block = some 3;
    ephemeral_records = (3, 40 ∷ []) ∷ [];
    prefixed_records =
        (candidates_parachains, (40, entry (7 ∷ [])) ∷ [])
        ∷ (candidate 7, (40, entry (encode_candidate backed_record)) ∷ [])
        ∷ (dispute 7, (40, entry []) ∷ [])
        ∷ [];
  };
  codecs = codecs;
  hash = λ bytes. 1;
  to_websocket = none;
  subscribe_channels =
      (7, record { connected = connected; messages = []; priority_messages = [] } ∷ []) ∷ [];
  broadcast_channels = [];
  state = record {
    current_relay_chain_block_number = 3;
    current_relay_chain_block_hashes = 9 ∷ [];
    candidates_seen = (7, 40 ∷ []) ∷ [];
    disputes_seen = [];
    candidates_backed = [];
    candidates_included = [];
    candidates_timed_out = [];
    current_session_index = 5;
    last_finalized_block_number = some 3;
    authors_missing_their_slots = [];
    paras_seen = [];
  };
  subscribe_mode = CollectorSubscribeMode.best;
  hrmp_channels = false;
  max_parachain_stall = 256;
}

abbrev pub new_block : Input
new_block =
    Input.message (ChainSubscriptionEvent.new_best_head 10 (record { number = 4; parent_hash = 9 }))
      (λ i. 2000)
