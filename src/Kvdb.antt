-- ===== src/Kvdb.antt =====
-- The decoders of database keys: kvdb/src/decode.rs. A key is a list of bytes. The text of a byte string
-- and that of a hash come from libraries and are parameters.
pub mod Fields
pub mod Format
pub mod Keys
mod Tests
use polkadot_introspector.Prelude.{
  ℕ, zero, suc, ◌+◌, ◌*◌, Bool, true, false, Option, none, some, List, [], ◌∷◌, ◌==◌, if◌then◌else◌,
  leb, length, drop, nat_eq, map_option, and_then,
}

-- What the two libraries print.
pub record Texts : Type 0 where
  pub from_utf8_lossy : List ℕ → List ℕ
  pub hex : List ℕ → List ℕ

-- `DecodeElement`: which of the decoders it is.
pub data DecodeElement : Type 0 where
  big_endian_i32 big_endian_timestamp blake2b_hash : DecodeElement
  known_string : List ℕ → DecodeElement
  unknown_string : ℕ → DecodeElement

-- The numbers are those that the bytes spell; an `i32` is in two's complement.
pub data DecodeResult : Type 0 where
  number timestamp : ℕ → DecodeResult
  text : List ℕ → DecodeResult

unfoldable pub consume_size : DecodeElement → ℕ
consume_size big_endian_i32 = 4
consume_size big_endian_timestamp = 8
consume_size blake2b_hash = 32
consume_size (known_string pat) = length pat
consume_size (unknown_string len) = len

-- `from_be_bytes`, with what the bytes before these spell
unfoldable pub from_be_bytes : ℕ → List ℕ → ℕ
from_be_bytes n [] = n
from_be_bytes n (b ∷ bytes) = from_be_bytes (256 * n + b) bytes

unfoldable pub bytes_beq : List ℕ → List ℕ → Bool
bytes_beq [] [] = true
bytes_beq [] (y ∷ ys) = false
bytes_beq (x ∷ xs) [] = false
bytes_beq (x ∷ xs) (y ∷ ys) = let rest = bytes_beq xs ys in if x == y then rest else false

abbrev pub take : ℕ → List ℕ → List ℕ
take zero xs = []
take (suc n) [] = []
take (suc n) (x ∷ xs) = x ∷ take n xs

module _ (texts : Texts) where
  -- One decoder at the bytes that it consumes. A pattern that is not there is an error.
  unfoldable pub decoder : DecodeElement → List ℕ → Option DecodeResult
  unfolding from_be_bytes bytes_beq
  decoder big_endian_i32 input = some (number (from_be_bytes 0 input))
  decoder big_endian_timestamp input = some (timestamp (from_be_bytes 0 input))
  decoder blake2b_hash input = some (text (texts.hex input))
  decoder (known_string pat) input =
      let parsed_string = texts.from_utf8_lossy input in
      if bytes_beq parsed_string pat then some (text parsed_string) else none
  decoder (unknown_string len) input = some (text (texts.from_utf8_lossy input))

  -- The decoders one after the other, each at what is left; input that is too short is an error, and the
  -- first error ends it. Input that is left over is not looked at.
  unfoldable pub process_decoders_pipeline :
      List ℕ → List DecodeElement → Option (List DecodeResult)
  unfolding decoder consume_size
  process_decoders_pipeline remain [] = some []
  process_decoders_pipeline remain (d ∷ decoders) =
      let rest = process_decoders_pipeline (drop (consume_size d) remain) decoders in
      if leb (consume_size d) (length remain)
      then and_then (decoder d (take (consume_size d) remain)) (λ r. map_option (λ rs. r ∷ rs) rest)
      else none
