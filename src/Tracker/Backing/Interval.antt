-- ===== src/Tracker/Backing/Interval.antt =====
-- When the tracker concludes that the parachain uses asynchronous backing.
use polkadot_introspector.Prelude.{Bool, true, false, List, [], ◌∷◌, nat_eq}

abbrev pub is_nonempty {ℓ} : {A : Type ℓ} → List A → Bool
is_nonempty [] = false
is_nonempty (x ∷ xs) = true
