-- ===== src/Kvdb/Fields.antt =====
-- Keys that are put together from fields are taken apart into the same fields.
use polkadot_introspector.Prelude.{
  ℕ, zero, suc, ◌/◌, ◌%◌, ◌^◌, ◌<◌, ◌≡◌, refl, ap, sym, arith, true, some, List, [], ◌∷◌, ◌++◌,
  nat_eq, leb, length, drop, length-append,
}
use mathlib.Core.List.{append_assoc}
use polkadot_introspector.Kvdb.{
  Texts, DecodeElement, DecodeResult, consume_size, from_be_bytes, bytes_beq, take, decoder,
  process_decoders_pipeline, big_endian_i32, big_endian_timestamp, blake2b_hash, known_string,
  unknown_string, number, timestamp, text,
}

-- The last `n` base-256 digits of a number, the highest first.
abbrev pub to_be : ℕ → ℕ → List ℕ
to_be zero x = []
to_be (suc n) x = (x / 256 ^ n) % 256 ∷ to_be n x

-- One field of a key: what is written, and the decoder that reads it.
pub data Field : Type 0 where
  i32_field timestamp_field : ℕ → Field
  hash_field pattern_field string_field : List ℕ → Field

abbrev pub element : Field → DecodeElement
element (i32_field n) = big_endian_i32
element (timestamp_field n) = big_endian_timestamp
element (hash_field h) = blake2b_hash
element (pattern_field p) = known_string p
element (string_field s) = unknown_string (length s)

abbrev pub bytes_of : Field → List ℕ
bytes_of (i32_field n) = to_be 4 n
bytes_of (timestamp_field n) = to_be 8 n
bytes_of (hash_field h) = h
bytes_of (pattern_field p) = p
bytes_of (string_field s) = s

abbrev pub shown : Texts → Field → DecodeResult
shown t (i32_field n) = number n
shown t (timestamp_field n) = timestamp n
shown t (hash_field h) = text (t.hex h)
shown t (pattern_field p) = text p
shown t (string_field s) = text (t.from_utf8_lossy s)

-- A number fits its width, a hash has 32 bytes, and a pattern is text already.
abbrev pub Fits : Texts → Field → Type 0
Fits t (i32_field n) = n < 2 ^ 32
Fits t (timestamp_field n) = n < 2 ^ 64
Fits t (hash_field h) = length h ≡ 32
Fits t (pattern_field p) = t.from_utf8_lossy p ≡ p
Fits t (string_field s) = Unit

from_to_be32 : (n : ℕ) → n < 2 ^ 32 → from_be_bytes 0 (to_be 4 n) ≡ n
unfolding from_be_bytes
from_to_be32 n h = omega arith

from_to_be64 : (n : ℕ) → n < 2 ^ 64 → from_be_bytes 0 (to_be 8 n) ≡ n
unfolding from_be_bytes
from_to_be64 n h = omega arith

pub bytes_beq_refl : (xs : List ℕ) → bytes_beq xs xs ≡ true
unfolding bytes_beq
bytes_beq_refl [] = refl
bytes_beq_refl (x ∷ xs) = rw (bytes_beq_refl xs, (nat_eq.decides x x).1 refl) refl

take-append : (xs ys : List ℕ) → take (length xs) (xs ++ ys) ≡ xs
take-append [] ys = refl
take-append (x ∷ xs) ys = ap (λ t. x ∷ t) (take-append xs ys)

drop-append : (xs ys : List ℕ) → drop (length xs) (xs ++ ys) ≡ ys
drop-append [] ys = refl
drop-append (x ∷ xs) ys = drop-append xs ys

size-bytes_of : (t : Texts) (f : Field) → Fits t f → consume_size (element f) ≡ length (bytes_of f)
unfolding consume_size
size-bytes_of t (i32_field n) h = refl
size-bytes_of t (timestamp_field n) h = refl
size-bytes_of t (hash_field x) h = sym h
size-bytes_of t (pattern_field p) h = refl
size-bytes_of t (string_field s) h = refl

decoder-bytes_of :
    (t : Texts) (f : Field) → Fits t f → decoder t (element f) (bytes_of f) ≡ some (shown t f)
unfolding decoder
decoder-bytes_of t (i32_field n) h = ap (λ m. some (number m)) (from_to_be32 n h)
decoder-bytes_of t (timestamp_field n) h = ap (λ m. some (timestamp m)) (from_to_be64 n h)
decoder-bytes_of t (hash_field x) h = refl
decoder-bytes_of t (pattern_field p) h = rw (h, bytes_beq_refl p) refl
decoder-bytes_of t (string_field s) h = refl

-- The bytes of a key, field after field.
unfoldable pub key : List Field → List ℕ
key [] = []
key (f ∷ fields) = bytes_of f ++ key fields

abbrev pub AllFit : Texts → List Field → Type 0
AllFit t [] = Unit
AllFit t (f ∷ fields) = Fits t f × AllFit t fields

abbrev pub elements : List Field → List DecodeElement
elements [] = []
elements (f ∷ fields) = element f ∷ elements fields

abbrev pub all_shown : Texts → List Field → List DecodeResult
all_shown t [] = []
all_shown t (f ∷ fields) = shown t f ∷ all_shown t fields

-- Fields that fit their decoders, written one after the other, are read back one by one, whatever
-- follows them in the key: numbers as themselves, hashes as their hex, patterns as themselves, and
-- strings as the text that the library prints.
pub process_decoders_pipeline-key :
    (t : Texts) (fields : List Field) (rest : List ℕ)
    → AllFit t fields
    → process_decoders_pipeline t (key fields ++ rest) (elements fields) ≡ some (all_shown t fields)
unfolding process_decoders_pipeline key
process_decoders_pipeline-key t [] rest h = refl
process_decoders_pipeline-key t (f ∷ fields) rest h =
    let w = bytes_of f in
    let tail = key fields ++ rest in
    let fits : leb (length w) (length (w ++ tail)) ≡ true = ground (arith, length-append w tail) in
    let next = process_decoders_pipeline-key t fields rest h.1 in
    rw
      (
        append_assoc w (key fields) rest,
        size-bytes_of t f h.0,
        fits,
        take-append w tail,
        drop-append w tail,
        decoder-bytes_of t f h.0,
        next,
      )
      refl
