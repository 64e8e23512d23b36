-- ===== src/Tracker/Evolution.antt =====
-- How the slots of a core change over time: none is lost or moved, and no candidate goes back in its
-- life.
pub mod Steps
pub mod Cores
mod Tests
use polkadot_introspector.Prelude.{
  ℕ, ◌+◌, ◌≤◌, ◌≡◌, refl, ◌∙◌, Bool, true, false, Option, none, some, List, [], ◌∷◌, ◌++◌, arith,
  ◌==◌, nat_eq, Eq, unwrap_or, if◌then◌else◌, length,
}
use polkadot_introspector.Prelude.Assoc.{lookup}
use polkadot_introspector.Tracker.BlockInfo.{
  ParachainBlockInfo, ParachainBlockState, backed, pending_availability, included, dropped,
}
use polkadot_introspector.Tracker.State.{Slots, SubxtTracker}

-- The order in which a candidate may pass through its states.
abbrev pub rank : ParachainBlockState → ℕ
rank backed = 0
rank pending_availability = 1
rank dropped = 2
rank included = 3

-- The same skipped slot, or the same candidate on the same core, as far in its life or further.
abbrev pub Succeeds : Option ParachainBlockInfo → Option ParachainBlockInfo → Type 0
Succeeds none none = Unit {0}
Succeeds none (some c) = ⊥
Succeeds (some c) none = ⊥
Succeeds (some c) (some d) =
    (d.candidate_hash ≡ c.candidate_hash)
    × (d.assigned_core ≡ c.assigned_core)
    × (rank c.state ≤ rank d.state)

-- Every slot is succeeded in its place, and new slots come behind.
abbrev pub Evolves : Slots → Slots → Type 0
Evolves [] later = Unit {0}
Evolves (c ∷ slots) [] = ⊥
Evolves (c ∷ slots) (d ∷ later) = Succeeds c d × Evolves slots later

Succeeds-refl : (c : Option ParachainBlockInfo) → Succeeds c c
Succeeds-refl none = tt
Succeeds-refl (some c) = (refl, refl, omega arith)

Succeeds-trans : (c d e : Option ParachainBlockInfo) → Succeeds c d → Succeeds d e → Succeeds c e
Succeeds-trans none none none p q = tt
Succeeds-trans (some c) (some d) (some e) p q = ground arith
Succeeds-trans none none (some e) p q = q
Succeeds-trans none (some d) e p q = absurd p
Succeeds-trans (some c) none e p q = absurd p
Succeeds-trans (some c) (some d) none p q = absurd q

pub Evolves-refl : (slots : Slots) → Evolves slots slots
Evolves-refl [] = tt
Evolves-refl (c ∷ slots) = (Succeeds-refl c, Evolves-refl slots)

pub Evolves-trans : (a b c : Slots) → Evolves a b → Evolves b c → Evolves a c
Evolves-trans [] b c p q = tt
Evolves-trans (x ∷ a) [] c p q = absurd p
Evolves-trans (x ∷ a) (y ∷ b) [] p q = absurd q
Evolves-trans (x ∷ a) (y ∷ b) (z ∷ c) p q =
    (Succeeds-trans x y z p.0 q.0, Evolves-trans a b c p.1 q.1)

pub Evolves-append : (slots new : Slots) → Evolves slots (slots ++ new)
Evolves-append [] new = tt
Evolves-append (c ∷ slots) new = (Succeeds-refl c, Evolves-append slots new)

-- the slots of a core
abbrev pub slots_of : ℕ → List (ℕ × Slots) → Slots
slots_of core candidates = unwrap_or (lookup core candidates) []

-- Every core's slots evolve.
abbrev pub AllEvolve : List (ℕ × Slots) → List (ℕ × Slots) → Type 0
AllEvolve before after = (core : ℕ) → Evolves (slots_of core before) (slots_of core after)

pub AllEvolve-refl : (m : List (ℕ × Slots)) → AllEvolve m m
AllEvolve-refl m core = Evolves-refl (slots_of core m)

pub AllEvolve-trans : (a b c : List (ℕ × Slots)) → AllEvolve a b → AllEvolve b c → AllEvolve a c
AllEvolve-trans a b c p q core = Evolves-trans _ _ _ (p core) (q core)
