-- ===== src/Decode/Calls/Votes.antt =====
-- The votes that a decoded dispute carries, against the bits of its bitsets.
use polkadot_introspector.Prelude.{
  ℕ, zero, suc, ◌+◌, ◌%◌, ◌^◌, ◌≤◌, ◌<◌, ◌≡◌, refl, subst, sym, Bool, true, false, ◌&&◌, none, some,
  List, [], ◌∷◌, map, length, count, contains, arith, as_u32, ◌==◌, nat_eq, Bool-cases, inl, inr,
}
use polkadot_introspector.Tracker.BlockInfo.{H256}
use polkadot_introspector.Collector.Disputes.{DecodedDispute, conclusions_of}
use polkadot_introspector.Collector.Verdicts.{conclusions_of-overlap}
use polkadot_introspector.Decode.Raw.{RawDispute}
use polkadot_introspector.Decode.Raw.Laws.{FitsDispute}
use polkadot_introspector.Decode.Calls.{ones_from, iter_ones, of_raw_dispute, h256_from}

-- How many bits are set.
abbrev pub ones : List Bool → ℕ
ones = count (λ b. b)

-- The vote of a validator.
abbrev pub bit_at : List Bool → ℕ → Bool
bit_at [] i = false
bit_at (b ∷ bs) zero = b
bit_at (b ∷ bs) (suc i) = bit_at bs i

-- No bit is set in both.
abbrev pub IsDisjoint : List Bool → List Bool → Type 0
IsDisjoint (b ∷ bs) (d ∷ ds) = ((b && d) ≡ false) × IsDisjoint bs ds
IsDisjoint _ _ = Unit

length-map {ℓ κ} :
    {A : Type ℓ} {B : Type κ} (f : A → B) (xs : List A) → length (map f xs) ≡ length xs
length-map f [] = refl
length-map f (x ∷ xs) = omega (arith, length-map f xs)

length-ones_from : (i : ℕ) (bs : List Bool) → length (ones_from i bs) ≡ ones bs
unfolding ones_from count
length-ones_from i [] = refl
length-ones_from i (true ∷ bs) = omega (arith, length-ones_from (suc i) bs)
length-ones_from i (false ∷ bs) = omega (arith, length-ones_from (suc i) bs)

-- As long as the numbers fit, the conversions to `u32` change nothing.
map-as_u32 :
    (i : ℕ) (bs : List Bool) → i + length bs < 2 ^ 32 → map as_u32 (ones_from i bs) ≡ ones_from i bs
unfolding ones_from as_u32
map-as_u32 i [] h = refl
map-as_u32 i (true ∷ bs) h =
    let here : i % 2 ^ 32 ≡ i = omega arith in cc (here, map-as_u32 (suc i) bs (omega arith))
map-as_u32 i (false ∷ bs) h = map-as_u32 (suc i) bs (omega arith)

as_u32_below : (n : ℕ) → n < 2 ^ 29 → as_u32 n ≡ n
unfolding as_u32
as_u32_below n h = omega arith

contains-below : (n i : ℕ) (bs : List Bool) → n < i → contains n (ones_from i bs) ≡ false
unfolding ones_from contains
contains-below n i [] h = refl
contains-below n i (true ∷ bs) h = ground (arith, contains-below n (suc i) bs (omega arith))
contains-below n i (false ∷ bs) h = contains-below n (suc i) bs (omega arith)

contains-ones_from :
    (n m i : ℕ) (bs : List Bool) → m + i ≡ n → contains n (ones_from i bs) ≡ bit_at bs m
unfolding ones_from contains
contains-ones_from n m i [] h = refl
contains-ones_from n zero i (true ∷ bs) h = ground arith
contains-ones_from n zero i (false ∷ bs) h = contains-below n (suc i) bs (omega arith)
contains-ones_from n (suc m) i (true ∷ bs) h =
    ground (arith, contains-ones_from n m (suc i) bs (omega arith))
contains-ones_from n (suc m) i (false ∷ bs) h = contains-ones_from n m (suc i) bs (omega arith)

ones-disjoint :
    (bs ds : List Bool) → length bs ≡ length ds → IsDisjoint bs ds → ones bs + ones ds ≤ length bs
unfolding count
ones-disjoint [] [] h d = omega arith
ones-disjoint [] (x ∷ ds) h d = absurd (omega arith)
ones-disjoint (x ∷ bs) [] h d = absurd (omega arith)
ones-disjoint (true ∷ bs) (true ∷ ds) h d =
    let both : (true && true) ≡ false = d.0 in absurd (cc both)
ones-disjoint (true ∷ bs) (false ∷ ds) h d = omega (arith, ones-disjoint bs ds (omega arith) d.1)
ones-disjoint (false ∷ bs) (true ∷ ds) h d = omega (arith, ones-disjoint bs ds (omega arith) d.1)
ones-disjoint (false ∷ bs) (false ∷ ds) h d = omega (arith, ones-disjoint bs ds (omega arith) d.1)

-- What a dispute is decoded to, if its bitsets have one length.
abbrev pub built : RawDispute → DecodedDispute
built d = record {
  session = d.session;
  candidate_hash = h256_from d.candidate_hash;
  validators_for = map as_u32 (iter_ones d.validators_for);
  validators_against = map as_u32 (iter_ones d.validators_against);
  validator_count = as_u32 (length d.validators_for);
  start = d.start;
  concluded_at = d.concluded_at;
}

-- The votes of a decoded dispute are the set bits of the raw one, on either side.
pub record IsTally (d : RawDispute) (r : DecodedDispute) : Type 0 where
  pub votes_for : (n : ℕ) → contains n r.validators_for ≡ bit_at d.validators_for n
  pub votes_against : (n : ℕ) → contains n r.validators_against ≡ bit_at d.validators_against n
  pub count_for : length r.validators_for ≡ ones d.validators_for
  pub count_against : length r.validators_against ≡ ones d.validators_against
  pub validators : r.validator_count ≡ length d.validators_for

module _ (d : RawDispute) (fits : FitsDispute d) where
  votes_of : (bs : List Bool) → length bs < 2 ^ 29 → map as_u32 (iter_ones bs) ≡ ones_from 0 bs
  unfolding iter_ones
  votes_of bs h = map-as_u32 0 bs (omega arith)

  pub tally : IsTally d (built d)
  tally = record {
    votes_for = λ n.
        rw (votes_of d.validators_for fits.1.1.0)
          (contains-ones_from n n 0 d.validators_for (omega arith));
    votes_against = λ n.
        rw (votes_of d.validators_against fits.1.1.1.0)
          (contains-ones_from n n 0 d.validators_against (omega arith));
    count_for = rw (votes_of d.validators_for fits.1.1.0) (length-ones_from 0 d.validators_for);
    count_against =
        rw (votes_of d.validators_against fits.1.1.1.0) (length-ones_from 0 d.validators_against);
    validators = as_u32_below (length d.validators_for) fits.1.1.0;
  }

  module _ (r : DecodedDispute) (made : of_raw_dispute d ≡ some r) where
    same_length : length d.validators_for ≡ length d.validators_against
    unfolding of_raw_dispute
    same_length = elim (Bool-cases (length d.validators_for == length d.validators_against)) [
      | inl e ↦ (nat_eq.decides _ _).0 e
      | inr e ↦ let impossible : none ≡ some r = rw e at made in absurd (cc impossible)
    ]

    is_built : r ≡ built d
    unfolding of_raw_dispute
    is_built =
        let e = (nat_eq.decides _ _).1 same_length in
        let whole : some (built d) ≡ some r = rw e at made in cc whole

-- A dispute that fits and is decoded carries exactly the validators whose bits are set, each once,
-- and the number of bits as the number of validators.
pub of_raw_dispute-IsTally :
    (d : RawDispute) (r : DecodedDispute) → FitsDispute d → of_raw_dispute d ≡ some r → IsTally d r
of_raw_dispute-IsTally d r fits made =
    subst (IsTally d) (sym (is_built d fits r made)) (tally d fits)

-- A dispute whose bitsets have no bit in common concludes once at most, whatever its validators voted.
pub of_raw_dispute-concludes_once :
    (hash : H256) (d : RawDispute) (r : DecodedDispute)
    → FitsDispute d
    → of_raw_dispute d ≡ some r
    → IsDisjoint d.validators_for d.validators_against
    → length (conclusions_of hash r) ≤ 1
of_raw_dispute-concludes_once hash d r fits made disjoint =
    let t = of_raw_dispute-IsTally d r fits made in
    let few =
      ones-disjoint d.validators_for d.validators_against (same_length d fits r made) disjoint in
    (conclusions_of-overlap hash r).0
      (omega (arith, few, t.count_for, t.count_against, t.validators))
