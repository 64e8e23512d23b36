-- ===== src/Collector/Record.antt =====
-- The methods of `CandidateRecord` in essentials/src/collector/candidate_record.rs.
use polkadot_introspector.Prelude.{
  ℕ, ◌-◌, Bool, Option, none, some, if◌then◌else◌, leb, is_some, and_then,
}
use polkadot_introspector.Tracker.Types.{CandidateRecord, CandidateDisputed, DisputeResult}

-- `u32::checked_sub`
unfoldable pub checked_sub : ℕ → ℕ → Option ℕ
checked_sub a b = if leb b a then some (a - b) else none

unfoldable pub is_included : CandidateRecord → Bool
is_included r = is_some r.candidate_inclusion.included

unfoldable pub is_disputed : CandidateRecord → Bool
is_disputed r = is_some r.candidate_disputed

unfoldable pub inclusion_time : CandidateRecord → Option ℕ
unfolding checked_sub
inclusion_time r =
    and_then r.candidate_inclusion.included
      (λ included. checked_sub included r.candidate_inclusion.backed)

unfoldable pub backing_time : CandidateRecord → Option ℕ
unfolding checked_sub
backing_time r = checked_sub r.candidate_inclusion.backed r.candidate_inclusion.relay_parent_number

unfoldable pub dispute_resolution_time : CandidateRecord → Option ℕ
unfolding checked_sub
dispute_resolution_time r = and_then r.candidate_disputed (λ (d : CandidateDisputed).
    and_then d.concluded (λ (e : DisputeResult). checked_sub e.concluded_block d.disputed))

unfoldable pub parachain_id : CandidateRecord → ℕ
parachain_id r = r.candidate_inclusion.parachain_id
