-- ===== src/Decode/Values.antt =====
-- The keys of storage items and the decoders of their values, in essentials/src/api/decode.rs. The hash
-- functions of sp_core_hashing are a parameter.
pub mod Keys
use Prim.Native.Char.{code}
use Prim.Native.String.{String}
use polkadot_introspector.Prelude.{ℕ, Option, some, List, [], ◌∷◌, ◌++◌, map}
use polkadot_introspector.Tracker.Types.{AccountId32, SubxtHrmpChannel}
use polkadot_introspector.Decode.Coder.{Coder, Scale, ◌>>=◌, ◌▸◌, struct, decode_all}

pub record Hashing : Type 0 where
  pub twox_64 : List ℕ → List ℕ
  pub twox_128 : List ℕ → List ℕ

-- A byte string literal; its characters are ASCII.
abbrev pub literal : String → List ℕ
literal String.[] = []
literal (String.◌∷◌ c s) = code c ∷ literal s

module _ (H : Hashing) where
  unfoldable pub storage_prefix : List ℕ → List ℕ → List ℕ
  storage_prefix pallet storage = H.twox_128 pallet ++ H.twox_128 storage

  unfoldable pub twox64_concat_key : List ℕ → List ℕ → List ℕ → List ℕ
  unfolding storage_prefix
  twox64_concat_key pallet storage encoded_key =
      (storage_prefix pallet storage ++ H.twox_64 encoded_key) ++ encoded_key

  unfoldable pub babe_current_slot_key : List ℕ
  unfolding storage_prefix
  babe_current_slot_key = storage_prefix (literal "Babe") (literal "CurrentSlot")

  unfoldable pub timestamp_now_key : List ℕ
  unfolding storage_prefix
  timestamp_now_key = storage_prefix (literal "Timestamp") (literal "Now")

  unfoldable pub queued_keys_key : List ℕ
  unfolding storage_prefix
  queued_keys_key = storage_prefix (literal "Session") (literal "QueuedKeys")

  module _ (S : Scale) where
    unfoldable pub para_session_account_keys_key : ℕ → List ℕ
    unfolding storage_prefix
    para_session_account_keys_key session_index =
        storage_prefix (literal "ParaSessionInfo") (literal "AccountKeys")
        ++ S.u32.encode session_index

    unfoldable pub hrmp_egress_channels_index_key : ℕ → List ℕ
    unfolding twox64_concat_key
    hrmp_egress_channels_index_key para_id =
        twox64_concat_key (literal "Hrmp") (literal "HrmpEgressChannelsIndex")
          (S.u32.encode para_id)

    unfoldable pub hrmp_channel_digests_key : ℕ → List ℕ
    unfolding twox64_concat_key
    hrmp_channel_digests_key para_id =
        twox64_concat_key (literal "Hrmp") (literal "HrmpChannelDigests") (S.u32.encode para_id)

    unfoldable pub hrmp_channels_key : ℕ → ℕ → List ℕ
    unfolding twox64_concat_key
    hrmp_channels_key sender recipient =
        twox64_concat_key (literal "Hrmp") (literal "HrmpChannels")
          ((S.u32 ▸ S.u32).encode (sender, recipient))

    unfoldable pub session_key_owner_key : List ℕ → List ℕ → List ℕ
    unfolding twox64_concat_key
    session_key_owner_key key_type_id public =
        twox64_concat_key (literal "Session") (literal "KeyOwner")
          ((S.bytes 4 ▸ S.vec S.u8).encode (key_type_id, public))

pub record RawSessionKeys : Type 0 where
  pub grandpa : List ℕ
  pub babe : List ℕ
  pub para_validator : List ℕ
  pub para_assignment : List ℕ
  pub authority_discovery : List ℕ
  pub beefy : List ℕ

module _ (S : Scale) where
  unfoldable pub decode_account_keys : List ℕ → Option (List AccountId32)
  unfolding decode_all
  decode_account_keys bytes = decode_all (S.vec S.account_id) bytes

  unfoldable pub decode_slot : List ℕ → Option ℕ
  unfolding decode_all
  decode_slot bytes = decode_all S.u64 bytes

  unfoldable pub decode_timestamp : List ℕ → Option ℕ
  unfolding decode_all
  decode_timestamp bytes = decode_all S.u64 bytes

  unfoldable pub decode_para_ids : List ℕ → Option (List ℕ)
  unfolding decode_all
  decode_para_ids bytes = decode_all (S.vec S.u32) bytes

  unfoldable pub decode_hrmp_channel_digests : List ℕ → Option (List (ℕ × List ℕ))
  unfolding decode_all
  decode_hrmp_channel_digests bytes = decode_all (S.vec (S.u32 ▸ S.vec S.u32)) bytes

  abbrev pub raw_session_keys : Coder RawSessionKeys
  raw_session_keys =
      struct
        (λ p. record {
          grandpa = p.0;
          babe = p.1.0;
          para_validator = p.1.1.0;
          para_assignment = p.1.1.1.0;
          authority_discovery = p.1.1.1.1.0;
          beefy = p.1.1.1.1.1;
        })
        (λ k. (
          k.grandpa,
          (k.babe, (k.para_validator, (k.para_assignment, (k.authority_discovery, k.beefy)))),
        ))
        (S.bytes 32 ▸ S.bytes 32 ▸ S.bytes 32 ▸ S.bytes 32 ▸ S.bytes 32 ▸ S.bytes 33)

  unfoldable pub decode_queued_authority_discovery_keys :
      List ℕ → Option (List (AccountId32 × List ℕ))
  unfolding decode_all
  decode_queued_authority_discovery_keys bytes = do
    raw ← decode_all (S.vec (S.account_id ▸ raw_session_keys)) bytes
    some (map (λ p. (p.0, p.1.authority_discovery)) raw)

  unfoldable pub decode_account_id : List ℕ → Option AccountId32
  unfolding decode_all
  decode_account_id bytes = decode_all S.account_id bytes

  -- The derived code of `SubxtHrmpChannel`, in essentials/src/types.rs.
  abbrev pub hrmp_channel : Coder SubxtHrmpChannel
  hrmp_channel =
      struct
        (λ p. record {
          max_capacity = p.0;
          max_total_size = p.1.0;
          max_message_size = p.1.1.0;
          msg_count = p.1.1.1.0;
          total_size = p.1.1.1.1.0;
          mqc_head = p.1.1.1.1.1.0;
          sender_deposit = p.1.1.1.1.1.1.0;
          recipient_deposit = p.1.1.1.1.1.1.1;
        })
        (λ c. (
          c.max_capacity,
          (
            c.max_total_size,
            (
              c.max_message_size,
              (c.msg_count, (c.total_size, (c.mqc_head, (c.sender_deposit, c.recipient_deposit)))),
            ),
          ),
        ))
        (S.u32 ▸ S.u32 ▸ S.u32 ▸ S.u32 ▸ S.u32 ▸ S.option S.h256 ▸ S.u128 ▸ S.u128)

  unfoldable pub decode_hrmp_channel : List ℕ → Option SubxtHrmpChannel
  unfolding decode_all
  decode_hrmp_channel bytes = decode_all hrmp_channel bytes
