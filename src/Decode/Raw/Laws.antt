-- ===== src/Decode/Raw/Laws.antt =====
-- The derived codes of candidate events, disputes and cores read back what they wrote.
use polkadot_introspector.Prelude.{
  ℕ, zero, suc, ◌^◌, ◌<◌, ◌≡◌, refl, some, List, ◌++◌, All, length, arith,
}
use polkadot_introspector.Decode.Coder.{Scale}
use polkadot_introspector.Decode.Coder.Laws.{
  IsCoder, IsLawful, IsBytes, Within, ▸-IsCoder, struct-IsCoder, enum-IsCoder, read_as-reads,
  read_as-Extends, done-Extends, fail-Extends, Extends,
}
use polkadot_introspector.Decode.Raw.{
  RawCandidateReceipt, RawCandidateEvent, RawDispute, RawScheduledCore, RawOccupiedCore,
  RawCoreState, raw_candidate_receipt, raw_candidate_event, raw_dispute, raw_scheduled_core,
  raw_occupied_core, raw_core_state, with_group, without_group, event_index, event_fields,
  event_variant, core_index, core_fields, core_variant, receipt_tail_size,
  candidate_descriptor_size,
}

abbrev pub IsU32 : ℕ → Type 0
IsU32 n = n < 2 ^ 32

-- The values that the Rust types hold.
abbrev pub FitsBlob : List ℕ → Type 0
FitsBlob bs = All (λ b. b < 256) bs × IsU32 (length bs)

abbrev pub FitsReceipt : RawCandidateReceipt → Type 0
FitsReceipt r = IsU32 r.para_id × (IsBytes 32 r.relay_parent × IsBytes receipt_tail_size r.tail)

abbrev pub FitsEvent : RawCandidateEvent → Type 0
FitsEvent (RawCandidateEvent.backed r head core group) =
    FitsReceipt r × (FitsBlob head × (IsU32 core × IsU32 group))
FitsEvent (RawCandidateEvent.included r head core group) =
    FitsReceipt r × (FitsBlob head × (IsU32 core × IsU32 group))
FitsEvent (RawCandidateEvent.timed_out r head core) = FitsReceipt r × (FitsBlob head × IsU32 core)

abbrev pub FitsDispute : RawDispute → Type 0
FitsDispute d =
    IsU32 d.session
    × (IsBytes 32 d.candidate_hash
        × ((length d.validators_for < 2 ^ 29)
            × ((length d.validators_against < 2 ^ 29)
                × (IsU32 d.start × Within IsU32 d.concluded_at))))

abbrev pub FitsScheduled : RawScheduledCore → Type 0
FitsScheduled c = IsU32 c.para_id × Within (IsBytes 32) c.collator

abbrev pub FitsOccupied : RawOccupiedCore → Type 0
FitsOccupied c =
    Within FitsScheduled c.next_up_on_available
    × (IsU32 c.occupied_since
        × (IsU32 c.time_out_at
            × (Within FitsScheduled c.next_up_on_time_out
                × ((length c.availability < 2 ^ 29)
                    × (IsU32 c.group_responsible
                        × (IsBytes 32 c.candidate_hash
                            × IsBytes candidate_descriptor_size c.candidate_descriptor))))))

abbrev pub FitsCore : RawCoreState → Type 0
FitsCore (RawCoreState.occupied c) = FitsOccupied c
FitsCore (RawCoreState.scheduled c) = FitsScheduled c
FitsCore RawCoreState.free = Unit

module _ (S : Scale) (h : IsLawful S) where
  pub blob-IsCoder : IsCoder (S.vec S.u8) FitsBlob
  blob-IsCoder = h.vec S.u8 (λ b. b < 256) h.u8

  pub receipt-IsCoder : IsCoder (raw_candidate_receipt S) FitsReceipt
  receipt-IsCoder =
      struct-IsCoder _ _ (λ x. refl)
        (▸-IsCoder h.u32 (▸-IsCoder (h.bytes 32) (h.bytes receipt_tail_size)))

  with_group-IsCoder :
      IsCoder
        (with_group S)
        (λ p. FitsReceipt p.0 × (FitsBlob p.1.0 × (IsU32 p.1.1.0 × IsU32 p.1.1.1)))
  with_group-IsCoder = ▸-IsCoder receipt-IsCoder (▸-IsCoder blob-IsCoder (▸-IsCoder h.u32 h.u32))

  without_group-IsCoder :
      IsCoder (without_group S) (λ p. FitsReceipt p.0 × (FitsBlob p.1.0 × IsU32 p.1.1))
  without_group-IsCoder = ▸-IsCoder receipt-IsCoder (▸-IsCoder blob-IsCoder h.u32)

  event-reads :
      (x : RawCandidateEvent)
      → FitsEvent x
      → (event_index x < 256)
        × ((rest : List ℕ)
            → event_variant S (event_index x) (event_fields S x ++ rest) ≡ some (x, rest))
  event-reads (RawCandidateEvent.backed r head core group) fits = (
    omega arith,
    read_as-reads _ (with_group S) with_group-IsCoder (r, (head, (core, group))) fits,
  )
  event-reads (RawCandidateEvent.included r head core group) fits = (
    omega arith,
    read_as-reads _ (with_group S) with_group-IsCoder (r, (head, (core, group))) fits,
  )
  event-reads (RawCandidateEvent.timed_out r head core) fits =
      (omega arith, read_as-reads _ (without_group S) without_group-IsCoder (r, (head, core)) fits)

  event-Extends : (i : ℕ) → Extends (event_variant S i)
  event-Extends zero = read_as-Extends _ (with_group S) with_group-IsCoder.extends
  event-Extends (suc zero) = read_as-Extends _ (with_group S) with_group-IsCoder.extends
  event-Extends (suc (suc zero)) = read_as-Extends _ (without_group S) without_group-IsCoder.extends
  event-Extends (suc (suc (suc i))) = fail-Extends

  pub event-IsCoder : IsCoder (raw_candidate_event S) FitsEvent
  event-IsCoder =
      enum-IsCoder event_index (event_fields S) (event_variant S) h.u8 event-reads event-Extends

  pub dispute-IsCoder : IsCoder (raw_dispute S) FitsDispute
  dispute-IsCoder =
      struct-IsCoder _ _ (λ x. refl)
        (▸-IsCoder h.u32 (
          ▸-IsCoder (h.bytes 32)
            (▸-IsCoder h.bits (▸-IsCoder h.bits (▸-IsCoder h.u32 (h.option S.u32 IsU32 h.u32))))))

  scheduled-IsCoder : IsCoder (raw_scheduled_core S) FitsScheduled
  scheduled-IsCoder =
      struct-IsCoder _ _ (λ x. refl)
        (▸-IsCoder h.u32 (h.option (S.bytes 32) (IsBytes 32) (h.bytes 32)))

  next_up-IsCoder : IsCoder (S.option (raw_scheduled_core S)) (Within FitsScheduled)
  next_up-IsCoder = h.option (raw_scheduled_core S) FitsScheduled scheduled-IsCoder

  occupied-IsCoder : IsCoder (raw_occupied_core S) FitsOccupied
  occupied-IsCoder =
      struct-IsCoder _ _ (λ x. refl)
        (▸-IsCoder next_up-IsCoder (
          ▸-IsCoder h.u32 (
            ▸-IsCoder h.u32 (
              ▸-IsCoder next_up-IsCoder (
                ▸-IsCoder h.bits (
                  ▸-IsCoder h.u32 (▸-IsCoder (h.bytes 32) (h.bytes candidate_descriptor_size))))))))

  core-reads :
      (x : RawCoreState)
      → FitsCore x
      → (core_index x < 256)
        × ((rest : List ℕ)
            → core_variant S (core_index x) (core_fields S x ++ rest) ≡ some (x, rest))
  core-reads (RawCoreState.occupied c) fits =
      (omega arith, read_as-reads _ (raw_occupied_core S) occupied-IsCoder c fits)
  core-reads (RawCoreState.scheduled c) fits =
      (omega arith, read_as-reads _ (raw_scheduled_core S) scheduled-IsCoder c fits)
  core-reads RawCoreState.free fits = (omega arith, λ rest. refl)

  core-Extends : (i : ℕ) → Extends (core_variant S i)
  core-Extends zero = read_as-Extends _ (raw_occupied_core S) occupied-IsCoder.extends
  core-Extends (suc zero) = read_as-Extends _ (raw_scheduled_core S) scheduled-IsCoder.extends
  core-Extends (suc (suc zero)) = done-Extends RawCoreState.free
  core-Extends (suc (suc (suc i))) = fail-Extends

  pub core-IsCoder : IsCoder (raw_core_state S) FitsCore
  core-IsCoder =
      enum-IsCoder core_index (core_fields S) (core_variant S) h.u8 core-reads core-Extends
