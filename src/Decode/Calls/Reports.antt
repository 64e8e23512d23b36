-- ===== src/Decode/Calls/Reports.antt =====
-- What decoded disputes are to say of the raw ones, and the number that a hash's bytes spell.
use polkadot_introspector.Prelude.{
  ℕ, suc, ◌+◌, ◌*◌, ◌^◌, ◌≡◌, refl, ◌∙◌, Bool, true, false, ◌&&◌, Option, none, some, List, [], ◌∷◌,
  All, length, arith, ◌==◌, nat_eq, Bool-cases, inl, inr,
}
use polkadot_introspector.Collector.Disputes.{DecodedDispute}
use polkadot_introspector.Decode.Coder.{◌>>=◌}
use polkadot_introspector.Decode.Raw.{RawDispute}
use polkadot_introspector.Decode.Raw.Laws.{FitsDispute}
use polkadot_introspector.Decode.Calls.{spelled, h256_from, of_raw_dispute, of_raw_disputes}
use polkadot_introspector.Decode.Calls.Votes.{IsTally, built, tally}

-- The number that bytes spell, the first one the most significant.
abbrev pub big_endian : List ℕ → ℕ
big_endian [] = 0
big_endian (b ∷ bs) = b * 256 ^ length bs + big_endian bs

shifted : (n b k e : ℕ) → (n * 256 + b) * k + e ≡ n * (256 * k) + (b * k + e)
shifted n b k e = grind arith

shifted_power : (n b k e : ℕ) → (n * 256 + b) * 256 ^ k + e ≡ n * 256 ^ suc k + (b * 256 ^ k + e)
shifted_power n b k e =
    let power : 256 ^ suc k ≡ 256 * 256 ^ k = omega arith in rw power (shifted n b (256 ^ k) e)

spelled-big_endian : (n : ℕ) (bs : List ℕ) → spelled n bs ≡ n * 256 ^ length bs + big_endian bs
unfolding spelled
spelled-big_endian n [] = omega arith
spelled-big_endian n (b ∷ bs) =
    spelled-big_endian (n * 256 + b) bs ∙ shifted_power n b (length bs) (big_endian bs)

pub h256_from-big_endian : (bs : List ℕ) → h256_from bs ≡ big_endian bs
unfolding h256_from
h256_from-big_endian bs = spelled-big_endian 0 bs ∙ omega arith

-- A dispute is decoded to its own fields and to the votes of its bitsets.
abbrev pub IsDecoded : RawDispute → DecodedDispute → Type 0
IsDecoded d r =
    IsTally d r
    × (r.session ≡ d.session)
    × (r.candidate_hash ≡ big_endian d.candidate_hash)
    × (r.start ≡ d.start)
    × (r.concluded_at ≡ d.concluded_at)

-- One decoded dispute for each raw one, in order.
abbrev pub AllDecoded : List RawDispute → List DecodedDispute → Type 0
AllDecoded [] [] = Unit
AllDecoded (d ∷ ds) (r ∷ rs) = IsDecoded d r × AllDecoded ds rs
AllDecoded _ _ = true ≡ false

abbrev pub lengths_agree : List RawDispute → Bool
lengths_agree [] = true
lengths_agree (d ∷ ds) =
    (length d.validators_for == length d.validators_against) && lengths_agree ds

-- An error exactly if the bitsets of some dispute differ in length.
abbrev pub IsReport : List RawDispute → Option (List DecodedDispute) → Type 0
IsReport ds none = lengths_agree ds ≡ false
IsReport ds (some rs) = (lengths_agree ds ≡ true) × AllDecoded ds rs

built-IsDecoded : (d : RawDispute) → FitsDispute d → IsDecoded d (built d)
built-IsDecoded d fits = (tally d fits, refl, h256_from-big_endian d.candidate_hash, refl, refl)

IsReport-more :
    (d : RawDispute) (r : DecodedDispute) (ds : List RawDispute) (o : Option (List DecodedDispute))
    → (length d.validators_for == length d.validators_against) ≡ true
    → IsDecoded d r
    → IsReport ds o
    → IsReport (d ∷ ds) (do rest ← o; some (r ∷ rest))
IsReport-more d r ds none e decoded report = rw e report
IsReport-more d r ds (some rs) e decoded report = (rw e report.0, (decoded, report.1))

and-false : (a b : Bool) → a ≡ false → (a && b) ≡ false
and-false a b e = rw e refl

pub of_raw_disputes-IsReport :
    (ds : List RawDispute) → All FitsDispute ds → IsReport ds (of_raw_disputes ds)
unfolding of_raw_disputes of_raw_dispute
of_raw_disputes-IsReport [] fits = (refl, tt)
of_raw_disputes-IsReport (d ∷ ds) fits =
    let rest = of_raw_disputes-IsReport ds fits.1 in
    elim (Bool-cases (length d.validators_for == length d.validators_against)) [
      | inl e ↦
          rw e (IsReport-more d (built d) ds (of_raw_disputes ds) e (built-IsDecoded d fits.0) rest)
      | inr e ↦ rw e (and-false _ (lengths_agree ds) e)
    ]
