-- ===== src/Decode/Tests.antt =====
-- Runs of the decoders over the sample library, and the properties at them.
mod Sample
use polkadot_introspector.Prelude.{
  ℕ, zero, suc, ◌^◌, ◌<◌, ◌≡◌, ◌≢◌, ◌≤◌, refl, inl, inr, true, false, Bool, Option, none, some,
  List, [], ◌∷◌, ◌++◌, map, All, length, arith, drop,
}
use polkadot_introspector.Tracker.BlockInfo.{H256}
use polkadot_introspector.Tracker.Types.{
  DisputeStatement, ValidDisputeStatementKind, InherentData, CoreOccupied,
}
use polkadot_introspector.Collector.Disputes.{DecodedDispute, conclusions_of}
use polkadot_introspector.Decode.Coder.{Scale, ◌▸◌}
use polkadot_introspector.Decode.Coder.Laws.{IsBytes, DecodesOnly}
use polkadot_introspector.Decode.Raw.{
  RawCandidateEvent, RawCandidateReceipt, RawDispute, RawCoreState, raw_candidate_event,
  raw_dispute, raw_core_state,
}
use polkadot_introspector.Decode.Raw.Laws.{FitsReceipt, FitsBlob, FitsDispute}
use polkadot_introspector.Decode.Calls.{
  of_raw_event, of_raw_dispute, of_raw_disputes, decode_candidate_events, decode_disputes,
  decode_availability_cores, iter_ones, RawBabeEpoch,
}
use polkadot_introspector.Decode.Calls.Strict.{
  told, decode_candidate_events-DecodesOnly, decode_disputes-DecodesOnly,
}
use polkadot_introspector.Decode.Calls.Reports.{IsReport}
use polkadot_introspector.Decode.Calls.Votes.{
  IsTally, of_raw_dispute-IsTally, of_raw_dispute-concludes_once,
}
use polkadot_introspector.Decode.Values.{Hashing, hrmp_channels_key}
use polkadot_introspector.Decode.Values.Keys.{IsSized, hrmp_channels_key-reads}
use polkadot_introspector.Decode.Inherent.{
  RawBackedCandidate, RawDisputeStatementSet, statement_set, decode_parainherent,
}
use polkadot_introspector.Decode.Inherent.RoundTrip.{
  RawInherent, FitsInherent, payload, unsigned, encode_bare, decode_parainherent-reads,
  decode_parainherent-refuses,
}
use polkadot_introspector.Decode.Tests.Sample.{sample, sample-IsLawful}

abbrev zeros : ℕ → List ℕ
zeros zero = []
zeros (suc n) = 0 ∷ zeros n

length-zeros : (n : ℕ) → length (zeros n) ≡ n
length-zeros zero = refl
length-zeros (suc n) = omega (arith, length-zeros n)

zeros-small : (n : ℕ) → All (λ b. b < 256) (zeros n)
zeros-small zero = tt
zeros-small (suc n) = (omega arith, zeros-small n)

zeros-IsBytes : (n : ℕ) → IsBytes n (zeros n)
zeros-IsBytes n = (length-zeros n, zeros-small n)

abbrev receipt : RawCandidateReceipt
receipt = record { para_id = 1000; relay_parent = zeros 32; tail = zeros 288 }

receipt-Fits : FitsReceipt receipt
receipt-Fits = (omega arith, (zeros-IsBytes 32, zeros-IsBytes 288))

three-Fits : FitsBlob (1 ∷ 2 ∷ 3 ∷ [])
three-Fits = ((omega arith, (omega arith, (omega arith, tt))), omega arith)

-- A backed candidate and one that timed out.
abbrev two_events : List RawCandidateEvent
two_events =
    RawCandidateEvent.backed receipt (1 ∷ 2 ∷ 3 ∷ []) 5 42
    ∷ RawCandidateEvent.timed_out receipt [] 9
    ∷ []

abbrev first_bytes : List ℕ → H256
first_bytes [] = 0
first_bytes (b ∷ _) = b

decode_candidate_events-DecodesOnly_example :
    DecodesOnly
      (decode_candidate_events sample first_bytes)
      ((sample.vec (raw_candidate_event sample)).encode two_events)
      (some (map (told sample first_bytes) two_events))
decode_candidate_events-DecodesOnly_example =
    decode_candidate_events-DecodesOnly sample sample-IsLawful first_bytes two_events (
      (
        (receipt-Fits, (three-Fits, (omega arith, omega arith))),
        ((receipt-Fits, ((tt, omega arith), omega arith)), tt),
      ),
      omega arith,
    )

-- Three validators; one is for the candidate and two are against it.
abbrev raw : RawDispute
raw = record {
  session = 7;
  candidate_hash = zeros 32;
  validators_for = true ∷ false ∷ false ∷ [];
  validators_against = false ∷ true ∷ true ∷ [];
  start = 10;
  concluded_at = some 12;
}

abbrev uneven : RawDispute
uneven = record raw { validators_for = true ∷ [] }

raw-Fits : FitsDispute raw
raw-Fits =
    (omega arith, (zeros-IsBytes 32, (omega arith, (omega arith, (omega arith, omega arith)))))

uneven-Fits : FitsDispute uneven
uneven-Fits =
    (omega arith, (zeros-IsBytes 32, (omega arith, (omega arith, (omega arith, omega arith)))))

abbrev cooked : DecodedDispute
cooked = record {
  session = 7;
  candidate_hash = 0;
  validators_for = 0 ∷ [];
  validators_against = 1 ∷ 2 ∷ [];
  validator_count = 3;
  start = 10;
  concluded_at = some 12;
}

decodes_raw :
    decode_disputes sample ((sample.vec (raw_dispute sample)).encode (raw ∷ []))
    ≡ some (cooked ∷ [])
unfolding decode_disputes
decodes_raw = refl

refuses_uneven :
    decode_disputes sample ((sample.vec (raw_dispute sample)).encode (raw ∷ uneven ∷ [])) ≡ none
unfolding decode_disputes
refuses_uneven = refl

decode_disputes-DecodesOnly_example :
    (result : Option (List DecodedDispute)) × IsReport (raw ∷ uneven ∷ []) result
    × DecodesOnly
        (decode_disputes sample)
        ((sample.vec (raw_dispute sample)).encode (raw ∷ uneven ∷ []))
        result
decode_disputes-DecodesOnly_example =
    decode_disputes-DecodesOnly sample sample-IsLawful (raw ∷ uneven ∷ [])
      ((raw-Fits, (uneven-Fits, tt)), omega arith)

of_raw_dispute-raw : of_raw_dispute raw ≡ some cooked
unfolding of_raw_dispute
of_raw_dispute-raw = refl

of_raw_dispute-IsTally_example : IsTally raw cooked
of_raw_dispute-IsTally_example = of_raw_dispute-IsTally raw cooked raw-Fits of_raw_dispute-raw

of_raw_dispute-concludes_once_example : length (conclusions_of 5 cooked) ≤ 1
of_raw_dispute-concludes_once_example =
    of_raw_dispute-concludes_once 5 raw cooked raw-Fits of_raw_dispute-raw
      (refl, (refl, (refl, tt)))

abbrev hashing : Hashing
hashing = record { twox_64 = λ _. zeros 8; twox_128 = λ _. zeros 16 }

-- One bitfield, no candidate and one dispute with one statement.
abbrev inherent : RawInherent
inherent = record {
  bitfields = (true ∷ false ∷ [], (3, zeros 64)) ∷ [];
  backed_candidates = [];
  disputes =
      record {
        candidate_hash = 77;
        session = 6;
        statements =
            (
              DisputeStatement.valid_statement (ValidDisputeStatementKind.backing_valid 5),
              (2, zeros 64),
            )
            ∷ [];
      }
      ∷ [];
  parent_header = zeros 36;
}

abbrev inherent-Fits : FitsInherent sample inherent
inherent-Fits = record {
  bitfields = (((omega arith, (omega arith, zeros-IsBytes 64)), tt), omega arith);
  backed_candidates = (tt, omega arith);
  disputes = (
    (
      (
        omega arith,
        (omega arith, (((omega arith, (omega arith, zeros-IsBytes 64)), tt), omega arith)),
      ),
      tt,
    ),
    omega arith,
  );
  header = record { number = 0; parent_hash = 0 };
  left = [];
  reads_header = refl;
}

abbrev extrinsic : ℕ → List ℕ
extrinsic version = encode_bare sample version 54 0 inherent

decode_parainherent-reads_example :
    decode_parainherent sample (sample.compact_u32.encode (length (extrinsic 4)) ++ extrinsic 4)
    ≡ some (record {
      bitfields = map payload inherent.bitfields;
      disputes = map unsigned inherent.disputes;
    })
decode_parainherent-reads_example =
    decode_parainherent-reads sample sample-IsLawful 4 54 0 inherent inherent-Fits
      (omega arith, omega arith, omega arith) (omega arith) (omega arith)

decode_parainherent-refuses_example :
    decode_parainherent sample (sample.compact_u32.encode 9 ++ extrinsic 132) ≡ none
decode_parainherent-refuses_example =
    decode_parainherent-refuses sample sample-IsLawful 9 (extrinsic 132) (omega arith)
      (inr (132, drop 1 (extrinsic 132), omega arith, omega arith, refl))

-- One authority, and a configuration of two bytes behind the epoch.
abbrev epoch : RawBabeEpoch
epoch = record {
  epoch_index = 7;
  start_slot = 4000;
  duration = 600;
  authorities = (zeros 32, 1) ∷ [];
  randomness = zeros 32;
}
