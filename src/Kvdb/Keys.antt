-- ===== src/Kvdb/Keys.antt =====
-- `decode_keys` of kvdb/src/decode.rs. The walk over the database is a parameter.
use polkadot_introspector.Prelude.{
  ℕ, zero, suc, Bool, not, ◌&&◌, Option, none, some, List, [], ◌∷◌, ◌++◌, ◌+◌, ◌==◌, nat_eq,
  if◌then◌else◌, ltb, length, is_some_and, ok, panic,
}
use polkadot_introspector.Kvdb.{
  Texts, DecodeElement, DecodeResult, consume_size, process_decoders_pipeline,
}
use polkadot_introspector.Kvdb.Format.{Parsed, Looped, parse_format_string, split_percent}

pub record KeyDecodeResult : Type 0 where
  pub fields : List DecodeResult
  pub value_size : ℕ

pub record KeyDecodeOptions : Type 0 where
  pub lim : Option ℕ
  pub ignore_failures : Bool
  pub column : List ℕ
  pub decode_fmt : List ℕ

-- `prefixed_iter_values`: the keys and values of a column whose keys have a prefix.
pub record Database : Type 0 where
  pub prefixed_iter_values : List ℕ → List ℕ → Option (List (List ℕ × List ℕ))

abbrev truncate : ℕ → List KeyDecodeResult → List KeyDecodeResult
truncate zero xs = []
truncate (suc n) [] = []
truncate (suc n) (x ∷ xs) = x ∷ truncate n xs

unfoldable pub expected_key_len : List DecodeElement → ℕ
unfolding consume_size
expected_key_len [] = 0
expected_key_len (d ∷ decoders) = consume_size d + expected_key_len decoders

-- `break` at the first result above the limit
abbrev exceeds : Option ℕ → List KeyDecodeResult → Bool
exceeds lim results = is_some_and lim (λ n. ltb n (length results))

abbrev limited : Option ℕ → List KeyDecodeResult → List KeyDecodeResult
limited none results = results
limited (some n) results = truncate n results

module _ (texts : Texts) (opts : KeyDecodeOptions) (decoders : List DecodeElement) where
  -- One key, or the error that ends the walk.
  unfoldable pub decode_entry : List ℕ → List ℕ → Option KeyDecodeResult
  unfolding expected_key_len process_decoders_pipeline
  decode_entry k v =
      if not (length k == expected_key_len decoders) && not opts.ignore_failures
      then none
      else elim (process_decoders_pipeline texts k decoders) [
        | none ↦ none
        | some fields ↦ some (record { fields = fields; value_size = length v })
      ]

  -- The loop over the entries, with the results so far.
  unfoldable pub decode_entries :
      List KeyDecodeResult → List (List ℕ × List ℕ) → Option (List KeyDecodeResult)
  unfolding decode_entry
  decode_entries results [] = some results
  decode_entries results ((k, v) ∷ entries) = elim (decode_entry k v) [
    | none ↦ none
    | some r ↦
        let rest = decode_entries (results ++ r ∷ []) entries in
        if exceeds opts.lim (results ++ r ∷ [])
        then some (limited opts.lim (results ++ r ∷ []))
        else rest
  ]

module _ (texts : Texts) (db : Database) (opts : KeyDecodeOptions) where
  -- The walk over the entries of a prefix, once the format is parsed.
  unfoldable pub decode_prefix : List ℕ → Looped → Option (Parsed (List KeyDecodeResult))
  unfolding decode_entries
  decode_prefix prefix none = none
  decode_prefix prefix (some panic) = some panic
  decode_prefix prefix (some (ok none)) = some (ok none)
  decode_prefix prefix (some (ok (some decoders))) =
      elim (db.prefixed_iter_values opts.column prefix) [
        | none ↦ some (ok none)
        | some entries ↦ some (ok (decode_entries texts opts decoders [] entries))
      ]

  -- A format without a percent sign decodes nothing. The parser has a unit of fuel for each byte of the
  -- format, so that `none` does not come up.
  unfoldable pub decode_keys : Option (Parsed (List KeyDecodeResult))
  unfolding split_percent parse_format_string decode_prefix
  decode_keys = elim (split_percent opts.decode_fmt) [
    | none ↦ some (ok (some []))
    | some r ↦ decode_prefix r.0 (parse_format_string (length opts.decode_fmt) opts.decode_fmt)
  ]
