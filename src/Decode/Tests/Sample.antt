-- ===== src/Decode/Tests/Sample.antt =====
-- A library with the laws of `IsLawful`, for the witnesses: numbers are little-endian, a list stands
-- behind the number of its elements in four bytes, and a bit takes a byte.
use mathlib.Core.List.{append_assoc}
use polkadot_introspector.Prelude.{
  ℕ, zero, suc, ◌+◌, ◌*◌, ◌/◌, ◌%◌, ◌^◌, ◌<◌, ◌≡◌, refl, ap, Bool, true, false, Option, none, some,
  List, [], ◌∷◌, ◌++◌, All, length, arith,
}
use polkadot_introspector.Decode.Coder.{Coder, Scale, ◌>>=◌, ◌▸◌, read_as}
use polkadot_introspector.Decode.Coder.Laws.{
  IsCoder, IsLawful, Within, Extends, >>=-Extends, done-Extends, read_as-Extends,
}

abbrev le_encode : ℕ → ℕ → List ℕ
le_encode zero n = []
le_encode (suc k) n = (n % 256) ∷ le_encode k (n / 256)

abbrev le_decode : ℕ → List ℕ → Option (ℕ × List ℕ)
le_decode zero input = some (0, input)
le_decode (suc k) [] = none
le_decode (suc k) (b ∷ input) = do (n, input) ← le_decode k input; some (b + 256 * n, input)

abbrev le : ℕ → Coder ℕ
le k = record { encode = le_encode k; decode = le_decode k }

abbrev take_bytes : ℕ → List ℕ → Option (List ℕ × List ℕ)
take_bytes zero input = some ([], input)
take_bytes (suc k) [] = none
take_bytes (suc k) (b ∷ input) = do (bs, input) ← take_bytes k input; some (b ∷ bs, input)

abbrev bit_decode : List ℕ → Option (Bool × List ℕ)
bit_decode [] = none
bit_decode (zero ∷ input) = some (false, input)
bit_decode (suc _ ∷ input) = some (true, input)

abbrev bit_encode : Bool → List ℕ
bit_encode true = 1 ∷ []
bit_encode false = 0 ∷ []

module _ {T : Type 0} (c : Coder T) where
  abbrev option_encode : Option T → List ℕ
  option_encode none = 0 ∷ []
  option_encode (some x) = 1 ∷ c.encode x

  abbrev option_decode : List ℕ → Option (Option T × List ℕ)
  option_decode [] = none
  option_decode (zero ∷ input) = some (none, input)
  option_decode (suc _ ∷ input) = read_as some c input

  abbrev encode_each : List T → List ℕ
  encode_each [] = []
  encode_each (x ∷ xs) = c.encode x ++ encode_each xs

  abbrev decode_each : ℕ → List ℕ → Option (List T × List ℕ)
  decode_each zero input = some ([], input)
  decode_each (suc n) input = do
    (x, input) ← c.decode input
    (xs, input) ← decode_each n input
    some (x ∷ xs, input)

  abbrev vec : Coder (List T)
  vec = record {
    encode = λ xs. le_encode 4 (length xs) ++ encode_each xs;
    decode = λ input. do
      (n, input) ← le_decode 4 input
      decode_each n input;
  }

abbrev pub sample : Scale
sample = record {
  u8 = le 1;
  u32 = le 4;
  u64 = le 8;
  u128 = le 16;
  compact_u32 = le 4;
  bytes = λ n. record { encode = λ bs. bs; decode = take_bytes n };
  bits = vec (record { encode = bit_encode; decode = bit_decode });
  option = λ c. record { encode = option_encode c; decode = option_decode c };
  vec = λ c. vec c;
  h256 = le 32;
  account_id = le 32;
  header = read_as (λ p. record { number = p.0; parent_hash = p.1 }) (le 4 ▸ le 32);
}

le-reads :
    (k n : ℕ) (rest : List ℕ) → n < 256 ^ k → le_decode k (le_encode k n ++ rest) ≡ some (n, rest)
le-reads zero n rest h = let e : n ≡ 0 = omega arith in rw e refl
le-reads (suc k) n rest h =
    let small : n / 256 < 256 ^ k = omega arith in
    let whole : n % 256 + 256 * (n / 256) ≡ n = omega arith in
    rw (le-reads k (n / 256) rest small) (ap (λ m. some (m, rest)) whole)

take_bytes-reads :
    (n : ℕ) (bs rest : List ℕ) → length bs ≡ n → take_bytes n (bs ++ rest) ≡ some (bs, rest)
take_bytes-reads zero [] rest h = refl
take_bytes-reads zero (b ∷ bs) rest h = absurd (omega arith)
take_bytes-reads (suc n) [] rest h = absurd (omega arith)
take_bytes-reads (suc n) (b ∷ bs) rest h = rw (take_bytes-reads n bs rest (omega arith)) refl

le-Extends : (k : ℕ) → Extends (le_decode k)
le-Extends zero input x rest more h = done-Extends 0 input x rest more h
le-Extends (suc k) [] x rest more h = absurd (cc h)
le-Extends (suc k) (b ∷ input) x rest more h =
    >>=-Extends (le_decode k) (λ n input. some (b + 256 * n, input)) (le-Extends k)
      (λ n. done-Extends (b + 256 * n)) input x rest more h

take_bytes-Extends : (n : ℕ) → Extends (take_bytes n)
take_bytes-Extends zero input x rest more h = done-Extends [] input x rest more h
take_bytes-Extends (suc n) [] x rest more h = absurd (cc h)
take_bytes-Extends (suc n) (b ∷ input) x rest more h =
    >>=-Extends (take_bytes n) (λ bs input. some (b ∷ bs, input)) (take_bytes-Extends n)
      (λ bs. done-Extends (b ∷ bs)) input x rest more h

le-IsCoder : (k : ℕ) → IsCoder (le k) (λ n. n < 256 ^ k)
le-IsCoder k = record { reads = λ n h rest. le-reads k n rest h; extends = le-Extends k }

module _ {T : Type 0} {c : Coder T} {P : T → Type 0} (h : IsCoder c P) where
  each-reads :
      (xs : List T) (rest : List ℕ)
      → All P xs
      → decode_each c (length xs) (encode_each c xs ++ rest) ≡ some (xs, rest)
  each-reads [] rest fits = refl
  each-reads (x ∷ xs) rest fits =
      let more = each-reads xs rest fits.1 in
      rw append_assoc (rw (h.reads x fits.0 _) (rw more refl))

  each-Extends : (n : ℕ) → Extends (decode_each c n)
  each-Extends zero = done-Extends []
  each-Extends (suc n) =
      let more = each-Extends n in
      >>=-Extends c.decode (λ x input. decode_each c n input >>= λ q. some (x ∷ q.0, q.1)) h.extends
        (λ x.
          >>=-Extends (decode_each c n) (λ xs input. some (x ∷ xs, input)) more
            (λ xs. done-Extends (x ∷ xs)))

  counted-reads :
      (k : ℕ) (xs : List T) (rest : List ℕ)
      → length xs < 256 ^ k
      → All P xs
      → (le_decode k ((le_encode k (length xs) ++ encode_each c xs) ++ rest) >>= λ q.
          decode_each c q.0 q.1)
        ≡ some (xs, rest)
  counted-reads k xs rest short fits =
      rw append_assoc
        (rw (le-reads k (length xs) (encode_each c xs ++ rest) short) (each-reads xs rest fits))

  vec-IsCoder : IsCoder (vec c) (λ xs. All P xs × (length xs < 2 ^ 32))
  vec-IsCoder = record {
    reads = λ xs fits rest. counted-reads 4 xs rest fits.1 fits.0;
    extends = >>=-Extends (le_decode 4) (decode_each c) (le-Extends 4) each-Extends;
  }

  option-reads :
      (o : Option T)
      → Within P o
      → (rest : List ℕ) → option_decode c (option_encode c o ++ rest) ≡ some (o, rest)
  option-reads none fits rest = refl
  option-reads (some x) fits rest = rw (h.reads x fits rest) refl

  option-Extends : Extends (option_decode c)
  option-Extends [] x rest more e = absurd (cc e)
  option-Extends (zero ∷ input) x rest more e = done-Extends none input x rest more e
  option-Extends (suc n ∷ input) x rest more e =
      read_as-Extends some c h.extends input x rest more e

bit-IsCoder : IsCoder (record { encode = bit_encode; decode = bit_decode }) (λ _. Unit {0})
bit-IsCoder = record { reads = bit-reads; extends = bit-Extends }
  where
    bit-reads :
        (b : Bool) → Unit {0} → (rest : List ℕ) → bit_decode (bit_encode b ++ rest) ≡ some (b, rest)
    bit-reads true fits rest = refl
    bit-reads false fits rest = refl

    bit-Extends : Extends bit_decode
    bit-Extends [] x rest more e = absurd (cc e)
    bit-Extends (zero ∷ input) x rest more e = done-Extends false input x rest more e
    bit-Extends (suc n ∷ input) x rest more e = done-Extends true input x rest more e

all_unit : (bs : List Bool) → All (λ _. Unit {0}) bs
all_unit [] = tt
all_unit (b ∷ bs) = (tt, all_unit bs)

bits-IsCoder : IsCoder sample.bits (λ bs. length bs < 2 ^ 29)
bits-IsCoder =
    let bits = vec-IsCoder bit-IsCoder in
    record {
      reads = λ bs h rest. bits.reads bs (all_unit bs, omega arith) rest;
      extends = bits.extends;
    }

pub sample-IsLawful : IsLawful sample
sample-IsLawful = record {
  u8 = le-IsCoder 1;
  u32 = le-IsCoder 4;
  u64 = le-IsCoder 8;
  u128 = le-IsCoder 16;
  compact_u32 = le-IsCoder 4;
  bytes = λ n. record {
    reads = λ bs h rest. take_bytes-reads n bs rest h.0;
    extends = take_bytes-Extends n;
  };
  bits = bits-IsCoder;
  option = λ c P h. record { reads = option-reads h; extends = option-Extends h };
  vec = λ c P h. vec-IsCoder h;
  h256 = le-IsCoder 32;
  account_id = le-IsCoder 32;
}
