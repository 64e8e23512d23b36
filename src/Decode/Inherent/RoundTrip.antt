-- ===== src/Decode/Inherent/RoundTrip.antt =====
-- `decode_parainherent` on the bytes that the runtime writes.
use mathlib.Core.List.{append_assoc}
use polkadot_introspector.Prelude.{
  ℕ, ◌/◌, ◌^◌, ◌≤◌, ◌<◌, ◌≡◌, ◌≢◌, ◌⊎◌, refl, ◌∙◌, Bool, Option, none, some, List, [], ◌∷◌, ◌++◌,
  map, All, length, arith, ◌==◌, nat_eq, if◌then◌else◌, Bool-cases, inl, inr, true, false,
}
use polkadot_introspector.Tracker.Types.{
  AvailabilityBitfield, DisputeStatementSet, Header, InherentData,
}
use polkadot_introspector.Decode.Coder.{Scale, ◌▸◌}
use polkadot_introspector.Decode.Coder.Laws.{IsLawful, IsBytes}
use polkadot_introspector.Decode.Raw.Laws.{IsU32}
use polkadot_introspector.Decode.Calls.Strict.{FitsList}
use polkadot_introspector.Decode.Inherent.{
  RawDisputeStatementSet, RawBackedCandidate, raw_dispute_statement_set, raw_backed_candidate,
  decode_bitfields, decode_inherent_data, decode_call, decode_bare, decode_parainherent,
  inherent_data, statement_set,
}
use polkadot_introspector.Decode.Inherent.Laws.{FitsSet, FitsBacked, set-IsCoder, backed-IsCoder}

-- A signed bitfield: the payload, its validator and its signature.
abbrev pub Signed : Type 0
Signed = AvailabilityBitfield × (ℕ × List ℕ)

abbrev pub FitsSigned : Signed → Type 0
FitsSigned p = (length p.0 < 2 ^ 29) × (IsU32 p.1.0 × IsBytes 64 p.1.1)

abbrev pub payload : Signed → AvailabilityBitfield
payload p = p.0

-- `ParachainsInherentData` of the runtime. The header is given by its bytes.
pub record RawInherent : Type 0 where
  pub bitfields : List Signed
  pub backed_candidates : List RawBackedCandidate
  pub disputes : List RawDisputeStatementSet
  pub parent_header : List ℕ

pub record FitsInherent (S : Scale) (x : RawInherent) : Type 0 where
  pub bitfields : FitsList FitsSigned x.bitfields
  pub backed_candidates : FitsList FitsBacked x.backed_candidates
  pub disputes : FitsList FitsSet x.disputes
  pub header : Header
  pub left : List ℕ
  pub reads_header : S.header x.parent_header ≡ some (header, left)

module _ (S : Scale) where
  abbrev encode_bitfields : List Signed → List ℕ
  encode_bitfields [] = []
  encode_bitfields (p ∷ ps) = (S.bits ▸ S.u32 ▸ S.bytes 64).encode p ++ encode_bitfields ps

  abbrev pub encode_inherent : RawInherent → List ℕ
  encode_inherent x =
      S.compact_u32.encode (length x.bitfields)
      ++ (encode_bitfields x.bitfields
          ++ ((S.vec (raw_backed_candidate S)).encode x.backed_candidates
              ++ ((S.vec (raw_dispute_statement_set S)).encode x.disputes ++ x.parent_header)))

  -- A version byte, the two bytes of the call and the inherent.
  abbrev pub encode_bare : ℕ → ℕ → ℕ → RawInherent → List ℕ
  encode_bare version pallet call x =
      S.u8.encode version ++ (S.u8.encode pallet ++ (S.u8.encode call ++ encode_inherent x))

module _ (S : Scale) (h : IsLawful S) where
  decode_bitfields-reads :
      (signed : List Signed) (rest : List ℕ)
      → All FitsSigned signed
      → decode_bitfields S (length signed) (encode_bitfields S signed ++ rest)
        ≡ some (map payload signed, rest)
  unfolding decode_bitfields
  decode_bitfields-reads [] rest fits = refl
  decode_bitfields-reads (p ∷ ps) rest fits =
      let more = decode_bitfields-reads ps rest fits.1 in
      rw append_assoc (
        rw append_assoc (
          rw (h.bits.reads p.0 fits.0.0 _) (
            rw append_assoc (
              rw (h.u32.reads p.1.0 fits.0.1.0 _)
                (rw ((h.bytes 64).reads p.1.1 fits.0.1.1 _) (rw more refl))))))

  decode_inherent_data-reads :
      (x : RawInherent) (fits : FitsInherent S x)
      → decode_inherent_data S (encode_inherent S x)
        ≡ inherent_data (map payload x.bitfields) x.disputes fits.left
  unfolding decode_inherent_data
  decode_inherent_data-reads x fits =
      rw (h.compact_u32.reads (length x.bitfields) fits.bitfields.1 _) (
        rw (decode_bitfields-reads x.bitfields _ fits.bitfields.0) (
          rw ((h.vec _ _ (backed-IsCoder S h)).reads x.backed_candidates fits.backed_candidates _) (
            rw ((h.vec _ _ (set-IsCoder S h)).reads x.disputes fits.disputes _)
              (rw fits.reads_header refl))))

  decode_call-reads :
      (pallet call : ℕ) (x : RawInherent) (fits : FitsInherent S x)
      → pallet < 256
      → call < 256
      → decode_call S (S.u8.encode pallet ++ (S.u8.encode call ++ encode_inherent S x))
        ≡ inherent_data (map payload x.bitfields) x.disputes fits.left
  unfolding decode_call
  decode_call-reads pallet call x fits hp hc =
      rw (h.u8.reads pallet hp _) (rw (h.u8.reads call hc _) (decode_inherent_data-reads x fits))

  module _ (version pallet call : ℕ) (x : RawInherent) (fits : FitsInherent S x)
      (in_range : (version < 256) × (pallet < 256) × (call < 256)) where
    decode_bare-reads :
        version < 64
        → decode_bare S (encode_bare S version pallet call x)
          ≡ inherent_data (map payload x.bitfields) x.disputes fits.left
    unfolding decode_bare
    decode_bare-reads low =
        let bare : version / 64 ≡ 0 = omega arith in
        rw (h.u8.reads version in_range.0 _) (
          rw ((nat_eq.decides (version / 64) 0).1 bare)
            (decode_call-reads pallet call x fits in_range.1 in_range.2))

  decode_bare-signed :
      (version : ℕ) (rest : List ℕ)
      → version < 256
      → 64 ≤ version
      → decode_bare S (S.u8.encode version ++ rest) ≡ none
  unfolding decode_bare
  decode_bare-signed version rest small high = rw (h.u8.reads version small rest) (ground arith)

  decode_parainherent-prefix :
      (n : ℕ) (body : List ℕ)
      → n < 2 ^ 32
      → decode_parainherent S (S.compact_u32.encode n ++ body)
        ≡ (if n == length body then decode_bare S body else none)
  unfolding decode_parainherent
  decode_parainherent-prefix n body small = rw (h.compact_u32.reads n small body) refl

-- What a set of statements keeps: its candidate, its session and, of each statement in its place, the
-- statement and the validator.
abbrev pub unsigned : RawDisputeStatementSet → DisputeStatementSet
unsigned s = record {
  candidate_hash = s.candidate_hash;
  session = s.session;
  statements = map (λ p. (p.0, p.1.0)) s.statements;
}

-- An extrinsic whose version byte has one of its two top bits set.
abbrev pub IsNotBare : Scale → List ℕ → Type 0
IsNotBare S body =
    (version : ℕ) × (rest : List ℕ) × (version < 256)
    × (64 ≤ version)
    × (body ≡ S.u8.encode version ++ rest)

abbrev pub no_byte_left : List ℕ → Bool
no_byte_left [] = true
no_byte_left _ = false

inherent_data-left :
    (bitfields : List AvailabilityBitfield) (sets : List RawDisputeStatementSet) (left : List ℕ)
    → inherent_data bitfields sets left ≡ (
        if no_byte_left left
        then some (record { bitfields = bitfields; disputes = map unsigned sets })
        else none)
unfolding statement_set
inherent_data-left bitfields sets [] = refl
inherent_data-left bitfields sets (b ∷ more) = refl

refused : (n m : ℕ) (d : Option InherentData) → n ≢ m → (if n == m then d else none) ≡ none
refused n m d h = elim (Bool-cases (n == m)) [
  | inl e ↦ absurd (h ((nat_eq.decides n m).0 e))
  | inr e ↦ rw e refl
]

same_either : (b : Bool) (d : Option InherentData) → (if b then d else d) ≡ d
same_either true d = refl
same_either false d = refl

module _ (S : Scale) (h : IsLawful S) (version pallet call : ℕ) (x : RawInherent) where
  module _ (fits : FitsInherent S x)
      (in_range : (version < 256) × (pallet < 256) × (call < 256)) where
    -- A bare extrinsic of values that their types hold, with the right length prefix, is decoded to
    -- the payloads of the inherent's bitfields and to its disputes, each with its candidate, its
    -- session and its statements and validators without the signatures, all in order, whatever
    -- candidates stand between them; if bytes are left behind the parent header, it is refused.
    pub decode_parainherent-reads :
        let body = encode_bare S version pallet call x in
        version < 64
        → length body < 2 ^ 32
        → decode_parainherent S (S.compact_u32.encode (length body) ++ body) ≡ (
            if no_byte_left fits.left
            then some
                (record { bitfields = map payload x.bitfields; disputes = map unsigned x.disputes })
            else none)
    decode_parainherent-reads low small =
        let body = encode_bare S version pallet call x in
        decode_parainherent-prefix S h (length body) body small
        ∙ rw ((nat_eq.decides (length body) (length body)).1 refl) (
            decode_bare-reads S h version pallet call x fits in_range low
            ∙ inherent_data-left (map payload x.bitfields) x.disputes fits.left)

-- Of any bytes: a length prefix of 32 bits that is not the number of the bytes behind it is refused, and so is an
-- extrinsic that is not bare, whatever its length prefix and whatever stands behind its version byte.
pub decode_parainherent-refuses :
    (S : Scale) (h : IsLawful S) (n : ℕ) (body : List ℕ)
    → n < 2 ^ 32
    → (n ≢ length body) ⊎ IsNotBare S body
    → decode_parainherent S (S.compact_u32.encode n ++ body) ≡ none
decode_parainherent-refuses S h n body small (inl differs) =
    decode_parainherent-prefix S h n body small
    ∙ refused n (length body) (decode_bare S body) differs
decode_parainherent-refuses S h n body small (inr (version, rest, byte, high, split)) =
    decode_parainherent-prefix S h n body small
    ∙ rw (split, decode_bare-signed S h version rest byte high)
        (same_either (n == length (S.u8.encode version ++ rest)) none)
