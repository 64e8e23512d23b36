-- ===== src/Decode/Coder.antt =====
-- The SCALE library, parity_scale_codec, as the coders that the derived `Encode` and `Decode` are made
-- of, and the shapes of derived code: the fields of a struct in their order, and the variants of an
-- enum behind the byte of their index.
pub mod Laws
use polkadot_introspector.Prelude.{ℕ, Bool, Option, none, some, List, [], ◌++◌, map_option}
use polkadot_introspector.Tracker.BlockInfo.{H256}
use polkadot_introspector.Tracker.Types.{AccountId32, Header}

-- `decode` takes the input and gives the value and what it left.
pub record Coder (T : Type 0) : Type 0 where
  pub encode : T → List ℕ
  pub decode : List ℕ → Option (T × List ℕ)

infixl 5 ◌>>=◌
abbrev pub ◌>>=◌ {ℓ κ} : {A : Type ℓ} {B : Type κ} → Option A → (A → Option B) → Option B
none >>= f = none
some a >>= f = f a

-- The codes that the library gives to the types of Rust, of bitvec and of subxt. `bytes n` is
-- `[u8; n]`. Of a header the code only reads.
pub record Scale : Type 1 where
  pub u8 : Coder ℕ
  pub u32 : Coder ℕ
  pub u64 : Coder ℕ
  pub u128 : Coder ℕ
  pub compact_u32 : Coder ℕ
  pub bytes : ℕ → Coder (List ℕ)
  pub bits : Coder (List Bool)
  pub option : {T : Type 0} → Coder T → Coder (Option T)
  pub vec : {T : Type 0} → Coder T → Coder (List T)
  pub h256 : Coder H256
  pub account_id : Coder AccountId32
  pub header : List ℕ → Option (Header × List ℕ)

module _ {A B : Type 0} where
  -- two fields, one after the other
  infixr 60 ◌▸◌
  abbrev pub ◌▸◌ : Coder A → Coder B → Coder (A × B)
  a ▸ b = record {
    encode = λ p. a.encode p.0 ++ b.encode p.1;
    decode = λ input. do
      (x, input) ← a.decode input
      (y, input) ← b.decode input
      some ((x, y), input);
  }

  -- Reads the fields and makes the value of them.
  abbrev pub read_as : (A → B) → Coder A → List ℕ → Option (B × List ℕ)
  read_as make a input = do (x, input) ← a.decode input; some (make x, input)

  -- A type read and written through the tuple of its fields.
  abbrev pub struct : (A → B) → (B → A) → Coder A → Coder B
  struct make fields a = record { encode = λ x. a.encode (fields x); decode = read_as make a }

module _ {T : Type 0} where
  -- The variants of an enum by the index that `u8` reads: how the fields of a value are written, and
  -- how those of an index are read.
  abbrev pub enum : Coder ℕ → (T → ℕ) → (T → List ℕ) → (ℕ → List ℕ → Option (T × List ℕ)) → Coder T
  enum u8 index fields variant = record {
    encode = λ t. u8.encode (index t) ++ fields t;
    decode = λ input. do
      (i, input) ← u8.decode input
      variant i input;
  }

  abbrev all_read : T → List ℕ → Option T
  all_read x [] = some x
  all_read x _ = none

  -- `DecodeAll::decode_all`: no byte may be left.
  unfoldable pub decode_all : Coder T → List ℕ → Option T
  decode_all c input = do (x, rest) ← c.decode input; all_read x rest
