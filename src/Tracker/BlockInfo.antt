-- ===== src/Tracker/BlockInfo.antt =====
-- parachain-tracer/src/parachain_block_info.rs: what the tracker keeps of a candidate.
use polkadot_introspector.Prelude.{
  ℕ, ◌+◌, ◌*◌, ◌/◌, ◌≤◌, ◌<◌, ◌≡◌, Bool, true, false, ◌&&◌, Option, none, some, arith, leb, ltb,
  is_some_and,
}

-- A hash of 256 bits, as the number that its bytes spell.
abbrev pub H256 : Type 0
H256 = ℕ

pub record BlockAvailability : Type 0 where
  pub current : ℕ
  pub max : ℕ

-- `(self.max / 3) * 2` stays below `max`, so it does not wrap.
unfoldable pub is_slow : BlockAvailability → Bool
is_slow a = ltb 0 a.max && leb a.current (a.max / 3 * 2)

pub data ParachainBlockState : Type 0 where
  backed pending_availability included dropped : ParachainBlockState

pub record ParachainBlockInfo : Type 0 where
  pub candidate_hash : H256
  pub availability : Option BlockAvailability
  pub assigned_core : ℕ
  pub core_occupied : Bool
  pub state : ParachainBlockState

unfoldable pub new : H256 → ℕ → ParachainBlockInfo
new hash core = record {
  candidate_hash = hash;
  availability = none;
  assigned_core = core;
  core_occupied = false;
  state = backed;
}

unfoldable pub set_pending : ParachainBlockInfo → ParachainBlockInfo
set_pending c = record c { state = pending_availability }

unfoldable pub set_included : ParachainBlockInfo → ParachainBlockInfo
set_included c = record c { state = included }

unfoldable pub set_dropped : ParachainBlockInfo → ParachainBlockInfo
set_dropped c = record c { state = dropped }

abbrev pub is_backed_state : ParachainBlockState → Bool
is_backed_state backed = true
is_backed_state _ = false

abbrev pub is_included_state : ParachainBlockState → Bool
is_included_state included = true
is_included_state _ = false

abbrev pub is_dropped_state : ParachainBlockState → Bool
is_dropped_state dropped = true
is_dropped_state _ = false

abbrev pub is_backed : ParachainBlockInfo → Bool
is_backed c = is_backed_state c.state

abbrev pub is_included : ParachainBlockInfo → Bool
is_included c = is_included_state c.state

abbrev pub is_dropped : ParachainBlockInfo → Bool
is_dropped c = is_dropped_state c.state

unfoldable pub set_availability : BlockAvailability → ParachainBlockInfo → ParachainBlockInfo
set_availability a c = record c { availability = some a }

unfoldable pub is_bitfield_propagation_slow : ParachainBlockInfo → Bool
unfolding is_slow
is_bitfield_propagation_slow c = is_some_and c.availability is_slow

-- A slow candidate has at most two thirds of the bits; one whose bits fall short of two thirds by
-- more than one bit is slow.
pub is_slow_bounds :
    (a : BlockAvailability)
    → (is_slow a ≡ true → (3 * a.current ≤ 2 * a.max) × (0 < a.max))
      × (3 * a.current + 4 ≤ 2 * a.max → is_slow a ≡ true)
unfolding is_slow
is_slow_bounds a = (λ h. ground arith, λ h. ground arith)

-- A candidate with exactly two thirds of the bits counts as slow.
pub is_slow_at_two_thirds :
    (n : ℕ) → 0 < n → is_slow (record { current = 2 * n; max = 3 * n }) ≡ true
unfolding is_slow
is_slow_at_two_thirds n h = ground arith
