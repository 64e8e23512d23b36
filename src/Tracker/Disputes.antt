-- ===== src/Tracker/Disputes.antt =====
-- parachain-tracer/src/utils.rs but `format_ts`, and `DisputesTracker::new` of parachain-tracer/src/types.rs.
pub mod Votes
pub mod Bits
use polkadot_introspector.Prelude.{
  ℕ, suc, ◌+◌, ◌-◌, ◌≤◌, ◌<◌, ◌^◌, ◌≡◌, refl, ◌∙◌, Bool, true, false, not, Option, none, some, List,
  [], ◌∷◌, map, arith, length, get_elem?, keep, count, length-keep, count-le-length, ltb,
  if◌then◌else◌, Outcome, ok, panic, ◌>>=◌, expect, as_u32, sub32, add32, sub32-le, Bool-cases, inl,
  inr,
}
use polkadot_introspector.Tracker.Types.{
  AccountId32, AvailabilityBitfield, DisputeStatement, valid_statement, invalid_statement,
  DisputeStatementSet, SubxtDisputeResult, valid, invalid, timed_out, ValidatorAddress, identity,
  no_such_validator, no_session_keys, DisputesTracker,
}

-- A duration is its number of milliseconds; the subtraction saturates.
unfoldable pub time_diff : Option ℕ → Option ℕ → Option ℕ
time_diff (some a) (some b) = some (a - b)
time_diff (some a) none = none
time_diff none b = none

-- `&session_keys[validator_index as usize]`: the index was tested against the length, so there is
-- an account.
abbrev pub identity_at : ℕ → List AccountId32 → Option AccountId32 → ValidatorAddress
identity_at index session_keys (some account) = identity account
identity_at index session_keys none = no_such_validator index (length session_keys)

unfoldable pub extract_validator_address : Option (List AccountId32) → ℕ → ℕ × ValidatorAddress
extract_validator_address none index = (index, no_session_keys)
extract_validator_address (some session_keys) index =
    if ltb index (as_u32 (length session_keys))
    then (index, identity_at index session_keys (get_elem? session_keys index))
    else (index, no_such_validator index (length session_keys))

unfoldable pub extract_validator_addresses :
    Option (List AccountId32) → List ℕ → List (ℕ × ValidatorAddress)
extract_validator_addresses session_keys indices =
    map (extract_validator_address session_keys) indices

abbrev pub is_valid_statement : DisputeStatement × ℕ → Bool
is_valid_statement (valid_statement kind, index) = true
is_valid_statement (invalid_statement kind, index) = false

abbrev pub votes_against : Bool → DisputeStatement × ℕ → Bool
votes_against against_valid s =
    if against_valid then not (is_valid_statement s) else is_valid_statement s

unfoldable pub extract_misbehaving_validators :
    Option (List AccountId32) → DisputeStatementSet → Bool → List (ℕ × ValidatorAddress)
unfolding extract_validator_address
extract_misbehaving_validators session_keys info against_valid =
    map (λ s. extract_validator_address session_keys s.1)
      (keep (votes_against against_valid) info.statements)

unfoldable pub extract_votes : DisputeStatementSet → ℕ × ℕ
extract_votes info =
    let voted_for = as_u32 (length (keep is_valid_statement info.statements)) in
    (voted_for, sub32 (as_u32 (length info.statements)) voted_for)

-- `*v.get(core).expect("core index must be in the bitfield") as u32`
unfoldable pub bit_of : AvailabilityBitfield → ℕ → Outcome ℕ
bit_of bits core = do bit ← expect (get_elem? bits core); ok (if bit then 1 else 0)

unfoldable pub sum_bits : List AvailabilityBitfield → ℕ → ℕ → Outcome ℕ
unfolding bit_of
sum_bits [] core total = ok total
sum_bits (v ∷ bitfields) core total = do
  bit ← bit_of v core
  sum_bits bitfields core (add32 total bit)

unfoldable pub extract_availability_bits_count : List AvailabilityBitfield → ℕ → Outcome ℕ
unfolding sum_bits
extract_availability_bits_count bitfields core = sum_bits bitfields core 0

abbrev pub is_valid_outcome : SubxtDisputeResult → Bool
is_valid_outcome valid = true
is_valid_outcome _ = false

-- `DisputesTracker::new`
unfoldable pub new_dispute :
    DisputeStatementSet
    → SubxtDisputeResult
    → ℕ
    → List ℕ
    → ℕ
    → Option (List AccountId32)
    → Option (List AccountId32)
    → DisputesTracker
unfolding extract_votes extract_validator_addresses extract_misbehaving_validators
new_dispute info outcome initiated initiator_indices concluded session_info initiators_info =
    record {
      candidate = info.candidate_hash;
      outcome = outcome;
      voted_for = (extract_votes info).0;
      voted_against = (extract_votes info).1;
      initiators = extract_validator_addresses initiators_info initiator_indices;
      misbehaving_validators =
          extract_misbehaving_validators session_info info (is_valid_outcome outcome);
      resolve_time = concluded - initiated;
      session_index = info.session;
    }
