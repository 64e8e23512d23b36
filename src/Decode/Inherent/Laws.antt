-- ===== src/Decode/Inherent/Laws.antt =====
-- The derived codes of the inherent's parts read back what they wrote.
use polkadot_introspector.Prelude.{
  ℕ, zero, suc, ◌^◌, ◌<◌, ◌≡◌, refl, some, List, [], ◌++◌, length, arith,
}
use polkadot_introspector.Tracker.Types.{
  DisputeStatement, ValidDisputeStatementKind, InvalidDisputeStatementKind,
}
use polkadot_introspector.Decode.Coder.{Scale}
use polkadot_introspector.Decode.Coder.Laws.{
  IsCoder, IsLawful, IsBytes, Within, Extends, ▸-IsCoder, struct-IsCoder, enum-IsCoder,
  read_as-reads, read_as-Extends, done-Extends, fail-Extends,
}
use polkadot_introspector.Decode.Raw.{candidate_descriptor_size}
use polkadot_introspector.Decode.Raw.Laws.{IsU32, FitsBlob, blob-IsCoder}
use polkadot_introspector.Decode.Calls.Strict.{FitsList}
use polkadot_introspector.Decode.Inherent.{
  RawDisputeStatementSet, RawCommitments, RawValidityAttestation, RawBackedCandidate, valid_index,
  valid_fields, valid_variant, invalid_variant, statement_index, statement_fields,
  statement_variant, attestation_index, attestation_fields, attestation_variant, valid_kind,
  invalid_kind, dispute_statement, raw_validity_attestation, raw_commitments,
  raw_dispute_statement_set, raw_backed_candidate,
}

abbrev pub IsHash : ℕ → Type 0
IsHash n = n < 2 ^ 256

abbrev pub FitsValid : ValidDisputeStatementKind → Type 0
FitsValid (ValidDisputeStatementKind.backing_seconded h) = IsHash h
FitsValid (ValidDisputeStatementKind.backing_valid h) = IsHash h
FitsValid (ValidDisputeStatementKind.approval_checking_multiple_candidates hs) = FitsList IsHash hs
FitsValid _ = Unit

abbrev FitsInvalid : InvalidDisputeStatementKind → Type 0
FitsInvalid _ = Unit

abbrev pub FitsStatement : DisputeStatement → Type 0
FitsStatement (DisputeStatement.valid_statement k) = FitsValid k
FitsStatement (DisputeStatement.invalid_statement k) = FitsInvalid k

abbrev pub FitsSet : RawDisputeStatementSet → Type 0
FitsSet s =
    IsHash s.candidate_hash
    × (IsU32 s.session
        × FitsList (λ p. FitsStatement p.0 × (IsU32 p.1.0 × IsBytes 64 p.1.1)) s.statements)

abbrev pub FitsAttestation : RawValidityAttestation → Type 0
FitsAttestation (RawValidityAttestation.implicit s) = IsBytes 64 s
FitsAttestation (RawValidityAttestation.explicit s) = IsBytes 64 s

abbrev pub FitsCommitments : RawCommitments → Type 0
FitsCommitments c =
    FitsList FitsBlob c.upward_messages
    × (FitsList (λ p. IsU32 p.0 × FitsBlob p.1) c.horizontal_messages
        × (Within FitsBlob c.new_validation_code
            × (FitsBlob c.head_data
                × (IsU32 c.processed_downward_messages × IsU32 c.hrmp_watermark))))

abbrev pub FitsBacked : RawBackedCandidate → Type 0
FitsBacked c =
    IsBytes candidate_descriptor_size c.descriptor
    × (FitsCommitments c.commitments
        × (FitsList FitsAttestation c.validity_votes × (length c.validator_indices < 2 ^ 29)))

module _ (S : Scale) (h : IsLawful S) where
  hashes-IsCoder : IsCoder (S.vec S.h256) (FitsList IsHash)
  hashes-IsCoder = h.vec S.h256 IsHash h.h256

  valid-reads :
      (x : ValidDisputeStatementKind)
      → FitsValid x
      → (valid_index x < 256)
        × ((rest : List ℕ)
            → valid_variant S (valid_index x) (valid_fields S x ++ rest) ≡ some (x, rest))
  valid-reads ValidDisputeStatementKind.explicit fits = (omega arith, λ rest. refl)
  valid-reads (ValidDisputeStatementKind.backing_seconded x) fits =
      (omega arith, read_as-reads _ S.h256 h.h256 x fits)
  valid-reads (ValidDisputeStatementKind.backing_valid x) fits =
      (omega arith, read_as-reads _ S.h256 h.h256 x fits)
  valid-reads ValidDisputeStatementKind.approval_checking fits = (omega arith, λ rest. refl)
  valid-reads (ValidDisputeStatementKind.approval_checking_multiple_candidates xs) fits =
      (omega arith, read_as-reads _ (S.vec S.h256) hashes-IsCoder xs fits)

  valid-Extends : (i : ℕ) → Extends (valid_variant S i)
  valid-Extends zero = done-Extends ValidDisputeStatementKind.explicit
  valid-Extends (suc zero) = read_as-Extends _ S.h256 h.h256.extends
  valid-Extends (suc (suc zero)) = read_as-Extends _ S.h256 h.h256.extends
  valid-Extends (suc (suc (suc zero))) = done-Extends ValidDisputeStatementKind.approval_checking
  valid-Extends (suc (suc (suc (suc zero)))) =
      read_as-Extends _ (S.vec S.h256) hashes-IsCoder.extends
  valid-Extends (suc (suc (suc (suc (suc i))))) = fail-Extends

  valid-IsCoder : IsCoder (valid_kind S) FitsValid
  valid-IsCoder =
      enum-IsCoder valid_index (valid_fields S) (valid_variant S) h.u8 valid-reads valid-Extends

  invalid-reads :
      (x : InvalidDisputeStatementKind)
      → FitsInvalid x
      → (0 < 256) × ((rest : List ℕ) → invalid_variant 0 ([] ++ rest) ≡ some (x, rest))
  invalid-reads InvalidDisputeStatementKind.explicit fits = (omega arith, λ rest. refl)

  invalid-Extends : (i : ℕ) → Extends (invalid_variant i)
  invalid-Extends zero = done-Extends InvalidDisputeStatementKind.explicit
  invalid-Extends (suc i) = fail-Extends

  invalid-IsCoder : IsCoder (invalid_kind S) FitsInvalid
  invalid-IsCoder =
      enum-IsCoder (λ _. 0) (λ _. []) invalid_variant h.u8 invalid-reads invalid-Extends

  statement-reads :
      (x : DisputeStatement)
      → FitsStatement x
      → (statement_index x < 256)
        × ((rest : List ℕ)
            → statement_variant S (statement_index x) (statement_fields S x ++ rest)
              ≡ some (x, rest))
  statement-reads (DisputeStatement.valid_statement k) fits =
      (omega arith, read_as-reads _ (valid_kind S) valid-IsCoder k fits)
  statement-reads (DisputeStatement.invalid_statement k) fits =
      (omega arith, read_as-reads _ (invalid_kind S) invalid-IsCoder k fits)

  statement-Extends : (i : ℕ) → Extends (statement_variant S i)
  statement-Extends zero = read_as-Extends _ (valid_kind S) valid-IsCoder.extends
  statement-Extends (suc zero) = read_as-Extends _ (invalid_kind S) invalid-IsCoder.extends
  statement-Extends (suc (suc i)) = fail-Extends

  statement-IsCoder : IsCoder (dispute_statement S) FitsStatement
  statement-IsCoder =
      enum-IsCoder statement_index (statement_fields S) (statement_variant S) h.u8 statement-reads
        statement-Extends

  pub set-IsCoder : IsCoder (raw_dispute_statement_set S) FitsSet
  set-IsCoder =
      struct-IsCoder _ _ (λ x. refl)
        (▸-IsCoder h.h256 (
          ▸-IsCoder h.u32 (h.vec _ _ (▸-IsCoder statement-IsCoder (▸-IsCoder h.u32 (h.bytes 64))))))

  attestation-reads :
      (x : RawValidityAttestation)
      → FitsAttestation x
      → (attestation_index x < 256)
        × ((rest : List ℕ)
            → attestation_variant S (attestation_index x) (attestation_fields S x ++ rest)
              ≡ some (x, rest))
  attestation-reads (RawValidityAttestation.implicit s) fits =
      (omega arith, read_as-reads _ (S.bytes 64) (h.bytes 64) s fits)
  attestation-reads (RawValidityAttestation.explicit s) fits =
      (omega arith, read_as-reads _ (S.bytes 64) (h.bytes 64) s fits)

  attestation-Extends : (i : ℕ) → Extends (attestation_variant S i)
  attestation-Extends zero = fail-Extends
  attestation-Extends (suc zero) = read_as-Extends _ (S.bytes 64) (h.bytes 64).extends
  attestation-Extends (suc (suc zero)) = read_as-Extends _ (S.bytes 64) (h.bytes 64).extends
  attestation-Extends (suc (suc (suc i))) = fail-Extends

  attestation-IsCoder : IsCoder (raw_validity_attestation S) FitsAttestation
  attestation-IsCoder =
      enum-IsCoder attestation_index (attestation_fields S) (attestation_variant S) h.u8
        attestation-reads attestation-Extends

  commitments-IsCoder : IsCoder (raw_commitments S) FitsCommitments
  commitments-IsCoder =
      let blob = blob-IsCoder S h in
      struct-IsCoder _ _ (λ x. refl)
        (▸-IsCoder (h.vec _ _ blob) (
          ▸-IsCoder (h.vec _ _ (▸-IsCoder h.u32 blob))
            (▸-IsCoder (h.option _ _ blob) (▸-IsCoder blob (▸-IsCoder h.u32 h.u32)))))

  pub backed-IsCoder : IsCoder (raw_backed_candidate S) FitsBacked
  backed-IsCoder =
      struct-IsCoder _ _ (λ x. refl)
        (▸-IsCoder (h.bytes candidate_descriptor_size)
          (▸-IsCoder commitments-IsCoder (▸-IsCoder (h.vec _ _ attestation-IsCoder) h.bits)))
