-- ===== src/Tracker/Disputes/Bits.antt =====
-- Counting the availability bits of a core.
use polkadot_introspector.Prelude.{
  ℕ, suc, ◌+◌, ◌≤◌, ◌<◌, ◌^◌, ◌≡◌, refl, ap, ◌∙◌, Bool, false, none, some, List, [], ◌∷◌, arith,
  length, get_elem?, All, count, count-le-length, if◌then◌else◌, ok, panic, zero, add32-lt,
}
use native.Mathlib.Decide.{dec_lt}
use polkadot_introspector.Tracker.Types.{AvailabilityBitfield}
use polkadot_introspector.Tracker.Disputes.{bit_of, sum_bits, extract_availability_bits_count}

-- whether a bitfield sets the bit of a core
abbrev pub is_set_at : ℕ → AvailabilityBitfield → Bool
is_set_at core bits = elim (get_elem? bits core) [ none ↦ false | some bit ↦ bit ]

abbrev pub Covers : ℕ → AvailabilityBitfield → Type 0
Covers core bits = core < length bits

get_elem?-some {ℓ} :
    {A : Type ℓ} (xs : List A) (i : ℕ) → i < length xs → (x : A) × (get_elem? xs i ≡ some x)
get_elem?-some [] i h = absurd (omega arith)
get_elem?-some (x ∷ xs) zero h = (x, refl)
get_elem?-some (x ∷ xs) (suc i) h = get_elem?-some xs i (omega arith)

get_elem?-none {ℓ} : {A : Type ℓ} (xs : List A) (i : ℕ) → length xs ≤ i → get_elem? xs i ≡ none
get_elem?-none [] i h = refl
get_elem?-none (x ∷ xs) zero h = absurd (omega arith)
get_elem?-none (x ∷ xs) (suc i) h = get_elem?-none xs i (omega arith)

bit_of_lem :
    (v : AvailabilityBitfield) (core : ℕ)
    → Covers core v
    → bit_of v core ≡ ok (if is_set_at core v then 1 else 0)
unfolding bit_of
bit_of_lem v core covers = ground (arith, get_elem?-some v core covers)

bit_of_short : (v : AvailabilityBitfield) (core : ℕ) → length v ≤ core → bit_of v core ≡ panic
unfolding bit_of
bit_of_short v core short = rw (get_elem?-none v core short)

sum_bits_lem :
    (bitfields : List AvailabilityBitfield) (core total : ℕ)
    → All (Covers core) bitfields
    → total + length bitfields < 2 ^ 32
    → sum_bits bitfields core total ≡ ok (total + count (is_set_at core) bitfields)
unfolding sum_bits count
sum_bits_lem [] core total covers fits = ap ok (omega arith)
sum_bits_lem (v ∷ rest) core total covers fits = ground (
  arith,
  bit_of_lem v core covers.0,
  add32-lt total 0,
  add32-lt total 1,
  sum_bits_lem rest core total covers.1,
  sum_bits_lem rest core (total + 1) covers.1,
)

sum_bits_panics :
    (bitfields : List AvailabilityBitfield) (core total : ℕ)
    → ¬ All (Covers core) bitfields
    → sum_bits bitfields core total ≡ panic
unfolding sum_bits
sum_bits_panics [] core total short = absurd (short tt)
sum_bits_panics (v ∷ rest) core total short = elim (dec_lt core (length v)) [
  | yes covers ↦
      rw (bit_of_lem v core covers) (sum_bits_panics rest core _ (λ others. short (covers, others)))
  | no past ↦ rw (bit_of_short v core (omega arith))
]

-- If every bitfield has a bit for the core, the count is the number of bitfields that set it, and
-- no more than their number; if one is too short, the call panics.
pub availability_bits_lem :
    (bitfields : List AvailabilityBitfield) (core : ℕ)
    → length bitfields < 2 ^ 32
    → (All (Covers core) bitfields
        → extract_availability_bits_count bitfields core ≡ ok (count (is_set_at core) bitfields))
      × (count (is_set_at core) bitfields ≤ length bitfields)
      × (¬ All (Covers core) bitfields → extract_availability_bits_count bitfields core ≡ panic)
unfolding extract_availability_bits_count
availability_bits_lem bitfields core fits = (
  λ covers. sum_bits_lem bitfields core 0 covers (omega arith) ∙ ap ok (omega arith),
  count-le-length (is_set_at core) bitfields,
  sum_bits_panics bitfields core 0,
)
