-- ===== src/Tracker/Inclusion.antt =====
-- parachain-tracer/src/tracker.rs: `set_included_candidates`.
use polkadot_introspector.Prelude.{
  ℕ, Option, none, some, List, [], ◌∷◌, nat_eq, if◌then◌else◌, map_option, length, contains,
  Outcome, ok, panic, ◌>>=◌, as_u32,
}
use polkadot_introspector.Tracker.BlockInfo.{
  H256, ParachainBlockInfo, set_included, set_availability,
}
use polkadot_introspector.Tracker.Disputes.{extract_availability_bits_count}
use polkadot_introspector.Tracker.Records.{TrackerStorage}
use polkadot_introspector.Tracker.State.{SubxtTracker, Slots}
use polkadot_introspector.Tracker.Types.{AvailabilityBitfield, without_hash}
use polkadot_introspector.Tracker.Blocks.{modify_last, validators_indices}

-- The body of the loop in `set_included_candidates`, with `last_included` passed along.
unfoldable pub include_candidate :
    List H256
    → List AvailabilityBitfield
    → ℕ
    → ParachainBlockInfo
    → Option H256
    → Outcome (ParachainBlockInfo × Option H256)
include_candidate candidates_included bitfields max c last_included =
    if contains c.candidate_hash candidates_included
    then (do
      bits ← extract_availability_bits_count bitfields c.assigned_core
      ok (
        set_availability (record { current = bits; max = max }) (set_included c),
        some c.candidate_hash,
      ))
    else ok (c, last_included)

unfoldable pub include_slots :
    List H256 → List AvailabilityBitfield → ℕ → Slots → Option H256 → Outcome (Slots × Option H256)
unfolding include_candidate
include_slots hashes bitfields max [] last_included = ok ([], last_included)
include_slots hashes bitfields max (none ∷ slots) last_included = do
  (slots', last) ← include_slots hashes bitfields max slots last_included
  ok (none ∷ slots', last)
include_slots hashes bitfields max (some c ∷ slots) last_included = do
  (c', seen) ← include_candidate hashes bitfields max c last_included
  (slots', last) ← include_slots hashes bitfields max slots seen
  ok (some c' ∷ slots', last)

unfoldable pub include_cores :
    List H256
    → List AvailabilityBitfield
    → ℕ
    → List (ℕ × Slots)
    → Option H256
    → Outcome (List (ℕ × Slots) × Option H256)
unfolding include_slots
include_cores hashes bitfields max [] last_included = ok ([], last_included)
include_cores hashes bitfields max ((core, slots) ∷ rest) last_included = do
  (slots', seen) ← include_slots hashes bitfields max slots last_included
  (rest', last) ← include_cores hashes bitfields max rest seen
  ok ((core, slots') ∷ rest', last)

-- What follows the loop, if a candidate was included. An empty list of forks panics.
unfoldable pub note_included : SubxtTracker → Option H256 → Outcome SubxtTracker
unfolding modify_last
note_included t none = ok t
note_included t (some hash) = elim t.relay_forks [
  | [] ↦ panic
  | fork ∷ forks ↦ ok (record t {
    relay_forks = modify_last (λ f. record f { included_candidate = some hash }) (fork ∷ forks);
    previous_included_at = t.last_included_at;
    last_included_at = map_option without_hash t.current_relay_block;
  })
]

unfoldable pub set_included_candidates :
    SubxtTracker
    → H256
    → List H256
    → List AvailabilityBitfield
    → TrackerStorage
    → Outcome SubxtTracker
unfolding include_cores note_included
set_included_candidates t block_hash candidates_included bitfields st = do
  validators ← validators_indices block_hash st
  (candidates, last_included) ←
      include_cores candidates_included bitfields (as_u32 (length validators)) t.candidates none
  note_included (record t { candidates = candidates }) last_included
