-- ===== src/Decode/Inherent.antt =====
-- The decoder of the parachains inherent in essentials/src/api/decode.rs, with the derived codes of its
-- parts. An error is `none`.
pub mod Laws
pub mod RoundTrip
use polkadot_introspector.Prelude.{
  ℕ, zero, suc, ◌/◌, Bool, Option, none, some, List, [], ◌∷◌, map, if◌then◌else◌, ◌==◌, nat_eq,
  length,
}
use polkadot_introspector.Tracker.BlockInfo.{H256}
use polkadot_introspector.Tracker.Types.{
  AvailabilityBitfield, DisputeStatement, DisputeStatementSet, InherentData,
  ValidDisputeStatementKind, InvalidDisputeStatementKind,
}
use polkadot_introspector.Decode.Coder.{Coder, Scale, ◌>>=◌, ◌▸◌, read_as, struct, enum}
use polkadot_introspector.Decode.Raw.{candidate_descriptor_size}

pub record RawDisputeStatementSet : Type 0 where
  pub candidate_hash : H256
  pub session : ℕ
  pub statements : List (DisputeStatement × (ℕ × List ℕ))

pub record RawCommitments : Type 0 where
  pub upward_messages : List (List ℕ)
  pub horizontal_messages : List (ℕ × List ℕ)
  pub new_validation_code : Option (List ℕ)
  pub head_data : List ℕ
  pub processed_downward_messages : ℕ
  pub hrmp_watermark : ℕ

pub data RawValidityAttestation : Type 0 where
  implicit explicit : List ℕ → RawValidityAttestation

pub record RawBackedCandidate : Type 0 where
  pub descriptor : List ℕ
  pub commitments : RawCommitments
  pub validity_votes : List RawValidityAttestation
  pub validator_indices : List Bool

abbrev pub valid_index : ValidDisputeStatementKind → ℕ
valid_index ValidDisputeStatementKind.explicit = 0
valid_index (ValidDisputeStatementKind.backing_seconded _) = 1
valid_index (ValidDisputeStatementKind.backing_valid _) = 2
valid_index ValidDisputeStatementKind.approval_checking = 3
valid_index (ValidDisputeStatementKind.approval_checking_multiple_candidates _) = 4

abbrev pub invalid_variant : ℕ → List ℕ → Option (InvalidDisputeStatementKind × List ℕ)
invalid_variant zero = λ input. some (InvalidDisputeStatementKind.explicit, input)
invalid_variant _ = λ _. none

abbrev pub statement_index : DisputeStatement → ℕ
statement_index (DisputeStatement.valid_statement _) = 0
statement_index (DisputeStatement.invalid_statement _) = 1

abbrev pub attestation_index : RawValidityAttestation → ℕ
attestation_index (RawValidityAttestation.implicit _) = 1
attestation_index (RawValidityAttestation.explicit _) = 2

module _ (S : Scale) where
  abbrev pub valid_fields : ValidDisputeStatementKind → List ℕ
  valid_fields (ValidDisputeStatementKind.backing_seconded h) = S.h256.encode h
  valid_fields (ValidDisputeStatementKind.backing_valid h) = S.h256.encode h
  valid_fields (ValidDisputeStatementKind.approval_checking_multiple_candidates hs) =
      (S.vec S.h256).encode hs
  valid_fields _ = []

  abbrev pub valid_variant : ℕ → List ℕ → Option (ValidDisputeStatementKind × List ℕ)
  valid_variant zero = λ input. some (ValidDisputeStatementKind.explicit, input)
  valid_variant (suc zero) = read_as ValidDisputeStatementKind.backing_seconded S.h256
  valid_variant (suc (suc zero)) = read_as ValidDisputeStatementKind.backing_valid S.h256
  valid_variant (suc (suc (suc zero))) =
      λ input. some (ValidDisputeStatementKind.approval_checking, input)
  valid_variant (suc (suc (suc (suc zero)))) =
      read_as ValidDisputeStatementKind.approval_checking_multiple_candidates (S.vec S.h256)
  valid_variant _ = λ _. none

  -- The derived codes of essentials/src/types.rs.
  abbrev pub valid_kind : Coder ValidDisputeStatementKind
  valid_kind = enum S.u8 valid_index valid_fields valid_variant

  abbrev pub invalid_kind : Coder InvalidDisputeStatementKind
  invalid_kind = enum S.u8 (λ _. 0) (λ _. []) invalid_variant

module _ (S : Scale) where
  abbrev pub statement_fields : DisputeStatement → List ℕ
  statement_fields (DisputeStatement.valid_statement k) = (valid_kind S).encode k
  statement_fields (DisputeStatement.invalid_statement k) = (invalid_kind S).encode k

  abbrev pub statement_variant : ℕ → List ℕ → Option (DisputeStatement × List ℕ)
  statement_variant zero = read_as DisputeStatement.valid_statement (valid_kind S)
  statement_variant (suc zero) = read_as DisputeStatement.invalid_statement (invalid_kind S)
  statement_variant _ = λ _. none

  abbrev pub dispute_statement : Coder DisputeStatement
  dispute_statement = enum S.u8 statement_index statement_fields statement_variant

  abbrev pub attestation_fields : RawValidityAttestation → List ℕ
  attestation_fields (RawValidityAttestation.implicit s) = (S.bytes 64).encode s
  attestation_fields (RawValidityAttestation.explicit s) = (S.bytes 64).encode s

  abbrev pub attestation_variant : ℕ → List ℕ → Option (RawValidityAttestation × List ℕ)
  attestation_variant (suc zero) = read_as RawValidityAttestation.implicit (S.bytes 64)
  attestation_variant (suc (suc zero)) = read_as RawValidityAttestation.explicit (S.bytes 64)
  attestation_variant _ = λ _. none

  abbrev pub raw_validity_attestation : Coder RawValidityAttestation
  raw_validity_attestation = enum S.u8 attestation_index attestation_fields attestation_variant

  abbrev pub raw_commitments : Coder RawCommitments
  raw_commitments =
      struct
        (λ p. record {
          upward_messages = p.0;
          horizontal_messages = p.1.0;
          new_validation_code = p.1.1.0;
          head_data = p.1.1.1.0;
          processed_downward_messages = p.1.1.1.1.0;
          hrmp_watermark = p.1.1.1.1.1;
        })
        (λ c. (
          c.upward_messages,
          (
            c.horizontal_messages,
            (
              c.new_validation_code,
              (c.head_data, (c.processed_downward_messages, c.hrmp_watermark)),
            ),
          ),
        ))
        (S.vec (S.vec S.u8)
          ▸ S.vec (S.u32 ▸ S.vec S.u8)
          ▸ S.option (S.vec S.u8)
          ▸ S.vec S.u8
          ▸ S.u32
          ▸ S.u32)

module _ (S : Scale) where
  abbrev pub raw_dispute_statement_set : Coder RawDisputeStatementSet
  raw_dispute_statement_set =
      struct (λ p. record { candidate_hash = p.0; session = p.1.0; statements = p.1.1 })
        (λ s. (s.candidate_hash, (s.session, s.statements)))
        (S.h256 ▸ S.u32 ▸ S.vec (dispute_statement S ▸ S.u32 ▸ S.bytes 64))

  abbrev pub raw_backed_candidate : Coder RawBackedCandidate
  raw_backed_candidate =
      struct
        (λ p. record {
          descriptor = p.0;
          commitments = p.1.0;
          validity_votes = p.1.1.0;
          validator_indices = p.1.1.1;
        })
        (λ c. (c.descriptor, (c.commitments, (c.validity_votes, c.validator_indices))))
        (S.bytes candidate_descriptor_size
          ▸ raw_commitments S
          ▸ S.vec (raw_validity_attestation S)
          ▸ S.bits)

  -- The loop over the bitfields: the payload is kept, its validator and signature are not.
  unfoldable pub decode_bitfields : ℕ → List ℕ → Option (List AvailabilityBitfield × List ℕ)
  decode_bitfields zero input = some ([], input)
  decode_bitfields (suc count) input = do
    (bitfield, input) ← S.bits.decode input
    (_, input) ← S.u32.decode input
    (_, input) ← (S.bytes 64).decode input
    (bitfields, input) ← decode_bitfields count input
    some (bitfield ∷ bitfields, input)

-- A statement keeps its validator and loses its signature.
unfoldable pub statement_set : RawDisputeStatementSet → DisputeStatementSet
statement_set set = record {
  candidate_hash = set.candidate_hash;
  session = set.session;
  statements = map (λ p. (p.0, p.1.0)) set.statements;
}

abbrev inherent_data :
    List AvailabilityBitfield → List RawDisputeStatementSet → List ℕ → Option InherentData
inherent_data bitfields disputes [] =
    some (record { bitfields = bitfields; disputes = map statement_set disputes })
inherent_data bitfields disputes _ = none

module _ (S : Scale) where
  -- `ParachainsInherentData`, behind the two bytes of the call.
  unfoldable pub decode_inherent_data : List ℕ → Option InherentData
  unfolding decode_bitfields statement_set
  decode_inherent_data input = do
    (count, input) ← S.compact_u32.decode input
    (bitfields, input) ← decode_bitfields S count input
    (_, input) ← (S.vec (raw_backed_candidate S)).decode input
    (disputes, input) ← (S.vec (raw_dispute_statement_set S)).decode input
    (_, input) ← S.header input
    inherent_data bitfields disputes input

  -- The pallet's and the call's index.
  unfoldable pub decode_call : List ℕ → Option InherentData
  unfolding decode_inherent_data
  decode_call input = do
    (_, input) ← S.u8.decode input
    (_, input) ← S.u8.decode input
    decode_inherent_data input

  -- A bare extrinsic has the two top bits of its version byte unset.
  unfoldable pub decode_bare : List ℕ → Option InherentData
  unfolding decode_call
  decode_bare input = do
    (version, input) ← S.u8.decode input
    if version / 64 == 0 then decode_call input else none

  unfoldable pub decode_parainherent : List ℕ → Option InherentData
  unfolding decode_bare
  decode_parainherent extrinsic = do
    (len, input) ← S.compact_u32.decode extrinsic
    if len == length input then decode_bare input else none
