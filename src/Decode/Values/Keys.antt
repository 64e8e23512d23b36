-- ===== src/Decode/Values/Keys.antt =====
-- What a storage key of the message channels says: which channel, once the hashes in front are skipped.
use mathlib.Core.List.{append-nil}
use polkadot_introspector.Prelude.{
  ℕ, zero, suc, ◌≡◌, refl, ap, sym, ◌∙◌, some, List, [], ◌∷◌, ◌++◌, length, drop, arith,
  length-append,
}
use polkadot_introspector.Decode.Coder.{Scale, ◌▸◌}
use polkadot_introspector.Decode.Coder.Laws.{IsLawful, ▸-IsCoder}
use polkadot_introspector.Decode.Raw.Laws.{IsU32}
use polkadot_introspector.Decode.Values.{Hashing, twox64_concat_key, hrmp_channels_key}

-- The hashes have 16 and 8 bytes.
pub record IsSized (H : Hashing) : Type 0 where
  pub twox_64 : (bytes : List ℕ) → length (H.twox_64 bytes) ≡ 8
  pub twox_128 : (bytes : List ℕ) → length (H.twox_128 bytes) ≡ 16

drop-append : (xs ys : List ℕ) (n : ℕ) → length xs ≡ n → drop n (xs ++ ys) ≡ ys
drop-append [] ys n h = rw (sym h) refl
drop-append (x ∷ xs) ys zero h = absurd (omega arith)
drop-append (x ∷ xs) ys (suc n) h = drop-append xs ys n (omega arith)

module _ (H : Hashing) (sized : IsSized H) where
  pub drop-twox64_concat_key :
      (pallet storage key : List ℕ) → drop 40 (twox64_concat_key H pallet storage key) ≡ key
  unfolding twox64_concat_key
  drop-twox64_concat_key pallet storage key =
      let p = H.twox_128 pallet in
      let s = H.twox_128 storage in
      let t = H.twox_64 key in
      let outer = length-append (p ++ s) t in
      let inner = length-append p s in
      let total : length ((p ++ s) ++ t) ≡ 40 =
        omega
          (arith, outer, inner, sized.twox_128 pallet, sized.twox_128 storage, sized.twox_64 key) in
      drop-append ((p ++ s) ++ t) key 40 total

-- Behind its 40 bytes of hashes, the key of a channel decodes to the channel's sender and recipient, so
-- that the key alone tells them.
pub hrmp_channels_key-reads :
    (S : Scale) (H : Hashing) (sender recipient : ℕ)
    → IsLawful S
    → IsSized H
    → IsU32 sender
    → IsU32 recipient
    → (S.u32 ▸ S.u32).decode (drop 40 (hrmp_channels_key H S sender recipient))
      ≡ some ((sender, recipient), [])
unfolding hrmp_channels_key
hrmp_channels_key-reads S H sender recipient h sized hs hr =
    let encoded = (S.u32 ▸ S.u32).encode (sender, recipient) in
    let both = (▸-IsCoder h.u32 h.u32).reads (sender, recipient) (hs, hr) [] in
    let plain : (S.u32 ▸ S.u32).decode encoded ≡ some ((sender, recipient), []) =
      ap (S.u32 ▸ S.u32).decode (sym (append-nil encoded)) ∙ both in
    ap (S.u32 ▸ S.u32).decode (drop-twox64_concat_key H sized _ _ encoded) ∙ plain
