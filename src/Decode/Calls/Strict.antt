-- ===== src/Decode/Calls/Strict.antt =====
-- The decoders of runtime calls take what the runtime wrote and nothing longer or shorter.
use mathlib.Core.Path.{fun_ext}
use polkadot_introspector.Prelude.{
  ℕ, ◌^◌, ◌<◌, ◌≡◌, refl, subst, Option, some, List, ◌++◌, map, All, length,
}
use polkadot_introspector.Tracker.BlockInfo.{H256}
use polkadot_introspector.Collector.Types.{SubxtCandidateEvent, SubxtCandidateEventType}
use polkadot_introspector.Decode.Coder.{Scale}
use polkadot_introspector.Decode.Coder.Laws.{IsLawful, IsBytes, DecodesOnly, decode_all-DecodesOnly}
use polkadot_introspector.Decode.Raw.{
  RawCandidateReceipt, RawCandidateEvent, RawDispute, RawCoreState, raw_candidate_event,
  raw_dispute, raw_core_state, receipt_tail_size,
}
use polkadot_introspector.Decode.Raw.Laws.{
  FitsEvent, FitsDispute, FitsCore, event-IsCoder, dispute-IsCoder, core-IsCoder,
}
use polkadot_introspector.Collector.Disputes.{DecodedDispute}
use polkadot_introspector.Decode.Calls.Reports.{
  h256_from-big_endian, big_endian, IsReport, of_raw_disputes-IsReport,
}
use polkadot_introspector.Decode.Calls.{
  RawBabeEpoch, candidate_event, of_raw_event, of_raw_disputes, core_occupied,
  decode_candidate_events, decode_disputes, decode_availability_cores,
}

-- A list whose elements fit, as short as its length prefix can say.
abbrev pub FitsList : {T : Type 0} → (T → Type 0) → List T → Type 0
FitsList P xs = All P xs × (length xs < 2 ^ 32)

module _ (S : Scale) (hash : List ℕ → H256) where
  -- The event of a candidate: the hash of its receipt's own bytes, which are its parachain's number,
  -- its relay parent and its tail, and the number that the relay parent spells.
  abbrev pub event_told : RawCandidateReceipt → SubxtCandidateEventType → ℕ → SubxtCandidateEvent
  event_told r event_type core = record {
    candidate_hash = hash (
        S.u32.encode r.para_id
        ++ ((S.bytes 32).encode r.relay_parent ++ (S.bytes receipt_tail_size).encode r.tail));
    relay_parent = big_endian r.relay_parent;
    parachain_id = r.para_id;
    event_type = event_type;
    core_idx = core;
  }

  abbrev pub told : RawCandidateEvent → SubxtCandidateEvent
  told (RawCandidateEvent.backed r head core group) =
      event_told r SubxtCandidateEventType.backed core
  told (RawCandidateEvent.included r head core group) =
      event_told r SubxtCandidateEventType.included core
  told (RawCandidateEvent.timed_out r head core) =
      event_told r SubxtCandidateEventType.timed_out core

  of_raw_event-told : (event : RawCandidateEvent) → of_raw_event S hash event ≡ told event
  unfolding of_raw_event candidate_event
  of_raw_event-told (RawCandidateEvent.backed r head core group) =
      rw (h256_from-big_endian r.relay_parent) refl
  of_raw_event-told (RawCandidateEvent.included r head core group) =
      rw (h256_from-big_endian r.relay_parent) refl
  of_raw_event-told (RawCandidateEvent.timed_out r head core) =
      rw (h256_from-big_endian r.relay_parent) refl

module _ (S : Scale) (h : IsLawful S) where
  -- The code of a list of candidate events, of values that their types hold, is decoded to the event of
  -- each of them, in order: backed, included or timed out as it was, with its core, its parachain, its
  -- relay parent and the hash of its receipt's own bytes. With a byte more or with fewer bytes it is
  -- refused.
  pub decode_candidate_events-DecodesOnly :
      (hash : List ℕ → H256) (events : List RawCandidateEvent)
      → FitsList FitsEvent events
      → DecodesOnly
          (decode_candidate_events S hash)
          ((S.vec (raw_candidate_event S)).encode events)
          (some (map (told S hash) events))
  unfolding decode_candidate_events
  decode_candidate_events-DecodesOnly hash events fits =
      let decoded =
        decode_all-DecodesOnly (h.vec (raw_candidate_event S) FitsEvent (event-IsCoder S h))
          (λ raw. some (map (of_raw_event S hash) raw)) events fits in
      subst
        (λ f.
          DecodesOnly (decode_candidate_events S hash)
            ((S.vec (raw_candidate_event S)).encode events) (some (map f events)))
        (fun_ext (of_raw_event-told S hash)) decoded

  -- The code of a list of disputes, of values that their types hold and with bitsets of fewer than
  -- 2 ^ 29 bits, is refused if the bitsets of one of them differ in length, and is else decoded to
  -- the disputes in order, each with its session, start and conclusion, the number that its
  -- candidate's hash spells, and the validators whose bits are set. With a byte more or with fewer
  -- bytes it is refused.
  pub decode_disputes-DecodesOnly :
      (disputes : List RawDispute)
      → FitsList FitsDispute disputes
      → (result : Option (List DecodedDispute)) × IsReport disputes result
        × DecodesOnly (decode_disputes S) ((S.vec (raw_dispute S)).encode disputes) result
  unfolding decode_disputes
  decode_disputes-DecodesOnly disputes fits = (
    of_raw_disputes disputes,
    of_raw_disputes-IsReport disputes fits.0,
    decode_all-DecodesOnly (h.vec (raw_dispute S) FitsDispute (dispute-IsCoder S h)) of_raw_disputes
        disputes fits,
  )

  pub decode_availability_cores-DecodesOnly :
      (cores : List RawCoreState)
      → FitsList FitsCore cores
      → DecodesOnly
          (decode_availability_cores S)
          ((S.vec (raw_core_state S)).encode cores)
          (some (map core_occupied cores))
  unfolding decode_availability_cores
  decode_availability_cores-DecodesOnly cores fits =
      decode_all-DecodesOnly (h.vec (raw_core_state S) FitsCore (core-IsCoder S h))
        (λ raw. some (map core_occupied raw)) cores fits

abbrev pub FitsEpoch : RawBabeEpoch → Type 0
FitsEpoch e =
    (e.epoch_index < 2 ^ 64)
    × ((e.start_slot < 2 ^ 64)
        × ((e.duration < 2 ^ 64)
            × (FitsList (λ a. IsBytes 32 a.0 × (a.1 < 2 ^ 64)) e.authorities
                × IsBytes 32 e.randomness)))
