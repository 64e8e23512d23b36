-- ===== src/Decode/Coder/Laws.antt =====
-- What the decoders rely on: the library reads back what it wrote, and reads from the front, so that
-- bytes behind a value change nothing. Both pass to structs and enums.
use mathlib.Core.List.{append_assoc, append-nil}
use polkadot_introspector.Prelude.{
  ℕ, ◌^◌, ◌<◌, ◌≡◌, ◌≢◌, refl, sym, ap, ◌∙◌, Option, none, some, List, [], ◌∷◌, ◌++◌, All, length,
  Option-cases, inl, inr,
}
use polkadot_introspector.Decode.Coder.{
  Coder, Scale, ◌>>=◌, ◌▸◌, read_as, struct, enum, decode_all, all_read,
}

-- The values with `P` are read back, whatever follows, and a value that is read is read as well
-- when more bytes follow.
pub record IsCoder {T : Type 0} (c : Coder T) (P : T → Type 0) : Type 0 where
  pub reads : (x : T) → P x → (rest : List ℕ) → c.decode (c.encode x ++ rest) ≡ some (x, rest)
  pub extends :
      (input : List ℕ) (x : T) (rest more : List ℕ)
      → c.decode input ≡ some (x, rest)
      → c.decode (input ++ more) ≡ some (x, rest ++ more)

-- A decoder that reads from the front.
abbrev pub Extends : {T : Type 0} → (List ℕ → Option (T × List ℕ)) → Type 0
Extends {T} decode =
    (input : List ℕ) (x : T) (rest more : List ℕ)
    → decode input ≡ some (x, rest)
    → decode (input ++ more) ≡ some (x, rest ++ more)

some-inj : {T : Type 0} {a b : T} → some a ≡ some b → a ≡ b
some-inj h = cc

module _ {A B : Type 0} where
  pub >>=-Extends :
      (d : List ℕ → Option (A × List ℕ)) (k : A → List ℕ → Option (B × List ℕ))
      → Extends d
      → ((x : A) → Extends (k x))
      → Extends (λ input. d input >>= λ p. k p.0 p.1)
  >>=-Extends d k hd hk input x rest more h = elim (Option-cases (d input)) [
    | inl e ↦ let impossible : none ≡ some (x, rest) = rw e at h in absurd (cc impossible)
    | inr ((y, left), e) ↦
        let next : k y left ≡ some (x, rest) = rw e at h in
        rw (hd input y left more e) (hk y left x rest more next)
  ]

pub done-Extends : {T : Type 0} (x : T) → Extends (λ input. some (x, input))
done-Extends x input y rest more h = let e = some-inj h in cc e

pub fail-Extends : {T : Type 0} → Extends {T = T} (λ input. none)
fail-Extends input y rest more h = absurd (cc h)

module _ {A B : Type 0} where
  pub ▸-IsCoder :
      {a : Coder A} {b : Coder B} {P : A → Type 0} {Q : B → Type 0}
      → IsCoder a P
      → IsCoder b Q
      → IsCoder (a ▸ b) (λ p. P p.0 × Q p.1)
  ▸-IsCoder {a} {b} ha hb = record {
    reads = λ p fits rest.
        rw append_assoc
          (rw (ha.reads p.0 fits.0 (b.encode p.1 ++ rest)) (rw (hb.reads p.1 fits.1 rest) refl));
    extends =
        >>=-Extends a.decode (λ x input. b.decode input >>= λ q. some ((x, q.0), q.1)) ha.extends
          (λ x.
            >>=-Extends b.decode (λ y input. some ((x, y), input)) hb.extends
              (λ y. done-Extends (x, y)));
  }

  pub read_as-Extends : (make : A → B) (a : Coder A) → Extends a.decode → Extends (read_as make a)
  read_as-Extends make a h =
      >>=-Extends a.decode (λ x input. some (make x, input)) h (λ x. done-Extends (make x))

  pub read_as-reads :
      {P : A → Type 0} (make : A → B) (a : Coder A)
      → IsCoder a P
      → (x : A) → P x
      → (rest : List ℕ) → read_as make a (a.encode x ++ rest) ≡ some (make x, rest)
  read_as-reads make a h x fits rest = rw (h.reads x fits rest) refl

  pub struct-IsCoder :
      {a : Coder A} {P : A → Type 0} (make : A → B) (fields : B → A)
      → ((x : B) → make (fields x) ≡ x)
      → IsCoder a P
      → IsCoder (struct make fields a) (λ x. P (fields x))
  struct-IsCoder {a} make fields back h = record {
    reads = λ x fits rest.
        read_as-reads make a h (fields x) fits rest ∙ ap (λ y. some (y, rest)) (back x);
    extends = read_as-Extends make a h.extends;
  }

module _ {T : Type 0} where
  pub enum-IsCoder :
      {u8 : Coder ℕ} {P : T → Type 0} (index : T → ℕ) (fields : T → List ℕ)
      (variant : ℕ → List ℕ → Option (T × List ℕ))
      → IsCoder u8 (λ n. n < 256)
      → ((x : T)
          → P x
          → (index x < 256)
            × ((rest : List ℕ) → variant (index x) (fields x ++ rest) ≡ some (x, rest)))
      → ((i : ℕ) → Extends (variant i))
      → IsCoder (enum u8 index fields variant) P
  enum-IsCoder {u8} index fields variant h reads extends = record {
    reads = λ x fits rest.
        rw append_assoc
          (rw (h.reads (index x) (reads x fits).0 (fields x ++ rest)) ((reads x fits).1 rest));
    extends = >>=-Extends u8.decode variant h.extends extends;
  }

append_not_nil : (xs : List ℕ) (y : ℕ) (ys : List ℕ) → [] ≢ xs ++ y ∷ ys
append_not_nil [] y ys h = cc h
append_not_nil (x ∷ xs) y ys h = cc h

abbrev left_over : {T : Type 0} → Option (T × List ℕ) → List ℕ
left_over none = []
left_over (some p) = p.1

module _ {T : Type 0} {c : Coder T} {P : T → Type 0} (h : IsCoder c P) (x : T) (fits : P x) where
  pub decode_all-encode : (tail : List ℕ) → decode_all c (c.encode x ++ tail) ≡ all_read x tail
  unfolding decode_all
  decode_all-encode tail = rw (h.reads x fits tail) refl

  pub decode_all-exact : decode_all c (c.encode x) ≡ some x
  decode_all-exact = rw (sym (append-nil (c.encode x))) (decode_all-encode [])

  pub decode_all-trailing : (b : ℕ) (more : List ℕ) → decode_all c (c.encode x ++ b ∷ more) ≡ none
  decode_all-trailing b more = decode_all-encode (b ∷ more)

  nothing_left :
      (front : List ℕ) (y : T) (r : List ℕ) (b : ℕ) (more : List ℕ)
      → c.encode x ≡ front ++ b ∷ more
      → c.decode front ≢ some (y, r)
  nothing_left front y r b more split e =
      let whole = h.reads x fits [] in
      let longer = h.extends front y r (b ∷ more) e in
      let same : some (x, []) ≡ some (y, r ++ b ∷ more) =
        sym whole ∙ rw (append-nil (c.encode x)) (rw split longer) in
      append_not_nil r b more (ap left_over same)

  pub decode_all-truncated :
      (front : List ℕ) (b : ℕ) (more : List ℕ)
      → c.encode x ≡ front ++ b ∷ more
      → decode_all c front ≡ none
  unfolding decode_all
  decode_all-truncated front b more split = elim (Option-cases (c.decode front)) [
    | inl e ↦ rw e refl
    | inr ((y, r), e) ↦ absurd (nothing_left front y r b more split e)
  ]

-- An option whose value, if there is one, has the property.
abbrev pub Within : {T : Type 0} → (T → Type 0) → Option T → Type 0
Within P none = Unit
Within P (some x) = P x

abbrev pub IsBytes : ℕ → List ℕ → Type 0
IsBytes n bs = (length bs ≡ n) × All (λ b. b < 256) bs

-- The library reads back what it wrote of every value of the type. A sequence is shorter than its
-- compact length can say, and a bit vector has fewer than 2 ^ 29 bits.
pub record IsLawful (S : Scale) : Type 1 where
  pub u8 : IsCoder S.u8 (λ n. n < 256)
  pub u32 : IsCoder S.u32 (λ n. n < 2 ^ 32)
  pub u64 : IsCoder S.u64 (λ n. n < 2 ^ 64)
  pub u128 : IsCoder S.u128 (λ n. n < 2 ^ 128)
  pub compact_u32 : IsCoder S.compact_u32 (λ n. n < 2 ^ 32)
  pub bytes : (n : ℕ) → IsCoder (S.bytes n) (IsBytes n)
  pub bits : IsCoder S.bits (λ bs. length bs < 2 ^ 29)
  pub option :
      {T : Type 0} (c : Coder T) (P : T → Type 0) → IsCoder c P → IsCoder (S.option c) (Within P)
  pub vec :
      {T : Type 0} (c : Coder T) (P : T → Type 0)
      → IsCoder c P
      → IsCoder (S.vec c) (λ xs. All P xs × (length xs < 2 ^ 32))
  pub h256 : IsCoder S.h256 (λ n. n < 2 ^ 256)
  pub account_id : IsCoder S.account_id (λ n. n < 2 ^ 256)

-- A decoder that takes these bytes for this result, and refuses them when a byte follows and when one
-- at their end is missing.
abbrev pub DecodesOnly {ℓ} : {R : Type ℓ} → (List ℕ → Option R) → List ℕ → Option R → Type ℓ
DecodesOnly decode bytes result =
    (decode bytes ≡ result)
    × ((b : ℕ) (more : List ℕ) → decode (bytes ++ b ∷ more) ≡ none)
    × ((front : List ℕ) (b : ℕ) (more : List ℕ) → bytes ≡ front ++ b ∷ more → decode front ≡ none)

module _ {T R : Type 0} {c : Coder T} {P : T → Type 0} where
  pub decode_all-DecodesOnly :
      IsCoder c P
      → (f : T → Option R) (x : T) → P x
      → DecodesOnly (λ input. decode_all c input >>= f) (c.encode x) (f x)
  decode_all-DecodesOnly h f x fits = (
    rw (decode_all-exact h x fits) refl,
    λ b more. rw (decode_all-trailing h x fits b more) refl,
    λ front b more split. rw (decode_all-truncated h x fits front b more split) refl,
  )
