-- ===== src/Decode/Raw.antt =====
-- The raw types of essentials/src/api/decode.rs and their derived codes: candidate events, disputes
-- and availability cores.
pub mod Laws
use polkadot_introspector.Prelude.{
  ℕ, zero, suc, ◌+◌, ◌-◌, Bool, Option, none, some, List, [], ◌∷◌, ◌++◌,
}
use polkadot_introspector.Decode.Coder.{Coder, Scale, ◌▸◌, read_as, struct, enum}

abbrev pub candidate_descriptor_size : ℕ
candidate_descriptor_size = 292

abbrev pub candidate_receipt_size : ℕ
candidate_receipt_size = candidate_descriptor_size + 32

abbrev pub receipt_tail_size : ℕ
receipt_tail_size = candidate_receipt_size - 4 - 32

pub record RawCandidateReceipt : Type 0 where
  pub para_id : ℕ
  pub relay_parent : List ℕ
  pub tail : List ℕ

-- The head data, then the core and, but for a candidate that timed out, the group.
pub data RawCandidateEvent : Type 0 where
  backed included : RawCandidateReceipt → List ℕ → ℕ → ℕ → RawCandidateEvent
  timed_out : RawCandidateReceipt → List ℕ → ℕ → RawCandidateEvent

pub record RawDispute : Type 0 where
  pub session : ℕ
  pub candidate_hash : List ℕ
  pub validators_for : List Bool
  pub validators_against : List Bool
  pub start : ℕ
  pub concluded_at : Option ℕ

pub record RawScheduledCore : Type 0 where
  pub para_id : ℕ
  pub collator : Option (List ℕ)

pub record RawOccupiedCore : Type 0 where
  pub next_up_on_available : Option RawScheduledCore
  pub occupied_since : ℕ
  pub time_out_at : ℕ
  pub next_up_on_time_out : Option RawScheduledCore
  pub availability : List Bool
  pub group_responsible : ℕ
  pub candidate_hash : List ℕ
  pub candidate_descriptor : List ℕ

pub data RawCoreState : Type 0 where
  occupied : RawOccupiedCore → RawCoreState
  scheduled : RawScheduledCore → RawCoreState
  free : RawCoreState

module _ (S : Scale) where
  abbrev pub raw_candidate_receipt : Coder RawCandidateReceipt
  raw_candidate_receipt =
      struct (λ p. record { para_id = p.0; relay_parent = p.1.0; tail = p.1.1 })
        (λ r. (r.para_id, (r.relay_parent, r.tail)))
        (S.u32 ▸ S.bytes 32 ▸ S.bytes receipt_tail_size)

  -- the fields of `Backed` and of `Included`, and those of `TimedOut`
  abbrev pub with_group : Coder (RawCandidateReceipt × (List ℕ × (ℕ × ℕ)))
  with_group = raw_candidate_receipt ▸ S.vec S.u8 ▸ S.u32 ▸ S.u32

  abbrev pub without_group : Coder (RawCandidateReceipt × (List ℕ × ℕ))
  without_group = raw_candidate_receipt ▸ S.vec S.u8 ▸ S.u32

abbrev pub event_index : RawCandidateEvent → ℕ
event_index (backed _ _ _ _) = 0
event_index (included _ _ _ _) = 1
event_index (timed_out _ _ _) = 2

module _ (S : Scale) where
  abbrev pub event_fields : RawCandidateEvent → List ℕ
  event_fields (backed r head core group) = (with_group S).encode (r, (head, (core, group)))
  event_fields (included r head core group) = (with_group S).encode (r, (head, (core, group)))
  event_fields (timed_out r head core) = (without_group S).encode (r, (head, core))

  abbrev pub event_variant : ℕ → List ℕ → Option (RawCandidateEvent × List ℕ)
  event_variant zero = read_as (λ p. backed p.0 p.1.0 p.1.1.0 p.1.1.1) (with_group S)
  event_variant (suc zero) = read_as (λ p. included p.0 p.1.0 p.1.1.0 p.1.1.1) (with_group S)
  event_variant (suc (suc zero)) = read_as (λ p. timed_out p.0 p.1.0 p.1.1) (without_group S)
  event_variant _ = λ _. none

  abbrev pub raw_candidate_event : Coder RawCandidateEvent
  raw_candidate_event = enum S.u8 event_index event_fields event_variant

  abbrev pub raw_dispute : Coder RawDispute
  raw_dispute =
      struct
        (λ p. record {
          session = p.0;
          candidate_hash = p.1.0;
          validators_for = p.1.1.0;
          validators_against = p.1.1.1.0;
          start = p.1.1.1.1.0;
          concluded_at = p.1.1.1.1.1;
        })
        (λ d. (
          d.session,
          (d.candidate_hash, (d.validators_for, (d.validators_against, (d.start, d.concluded_at)))),
        ))
        (S.u32 ▸ S.bytes 32 ▸ S.bits ▸ S.bits ▸ S.u32 ▸ S.option S.u32)

  abbrev pub raw_scheduled_core : Coder RawScheduledCore
  raw_scheduled_core =
      struct (λ p. record { para_id = p.0; collator = p.1 }) (λ c. (c.para_id, c.collator))
        (S.u32 ▸ S.option (S.bytes 32))

module _ (S : Scale) where
  abbrev pub raw_occupied_core : Coder RawOccupiedCore
  raw_occupied_core =
      struct
        (λ p. record {
          next_up_on_available = p.0;
          occupied_since = p.1.0;
          time_out_at = p.1.1.0;
          next_up_on_time_out = p.1.1.1.0;
          availability = p.1.1.1.1.0;
          group_responsible = p.1.1.1.1.1.0;
          candidate_hash = p.1.1.1.1.1.1.0;
          candidate_descriptor = p.1.1.1.1.1.1.1;
        })
        (λ c. (
          c.next_up_on_available,
          (
            c.occupied_since,
            (
              c.time_out_at,
              (
                c.next_up_on_time_out,
                (c.availability, (c.group_responsible, (c.candidate_hash, c.candidate_descriptor))),
              ),
            ),
          ),
        ))
        (S.option (raw_scheduled_core S)
          ▸ S.u32
          ▸ S.u32
          ▸ S.option (raw_scheduled_core S)
          ▸ S.bits
          ▸ S.u32
          ▸ S.bytes 32
          ▸ S.bytes candidate_descriptor_size)

abbrev pub core_index : RawCoreState → ℕ
core_index (occupied _) = 0
core_index (scheduled _) = 1
core_index free = 2

module _ (S : Scale) where
  abbrev pub core_fields : RawCoreState → List ℕ
  core_fields (occupied c) = (raw_occupied_core S).encode c
  core_fields (scheduled c) = (raw_scheduled_core S).encode c
  core_fields free = []

  abbrev pub core_variant : ℕ → List ℕ → Option (RawCoreState × List ℕ)
  core_variant zero = read_as occupied (raw_occupied_core S)
  core_variant (suc zero) = read_as scheduled (raw_scheduled_core S)
  core_variant (suc (suc zero)) = λ input. some (free, input)
  core_variant _ = λ _. none

  abbrev pub raw_core_state : Coder RawCoreState
  raw_core_state = enum S.u8 core_index core_fields core_variant
