-- ===== src/Kvdb/Tests.antt =====
-- Examples of the decoders of keys.
use polkadot_introspector.Prelude.{◌≡◌, refl, arith, false, some, ok, List, [], ◌∷◌, ◌++◌}
use polkadot_introspector.Kvdb.{
  DecodeElement, Texts, process_decoders_pipeline, big_endian_i32, known_string, text, consume_size,
  decoder, bytes_beq,
}
use polkadot_introspector.Kvdb.Format.{
  Parsed, parse_format_string, split_percent, percent_element, take_digits, parse_usize,
  digits_value, parse_format_string-enough,
}
use polkadot_introspector.Kvdb.Keys.{
  Database, KeyDecodeOptions, decode_keys, decode_prefix, decode_entries, decode_entry,
  expected_key_len,
}
use polkadot_introspector.Kvdb.Fields.{
  Field, key, elements, all_shown, i32_field, pattern_field, string_field,
  process_decoders_pipeline-key,
}

-- Texts that print the bytes as they are.
abbrev plain : Texts
plain = record { from_utf8_lossy = λ bytes. bytes; hex = λ bytes. bytes }

-- the format "ab%i%s1"
abbrev fields : List Field
fields = pattern_field (97 ∷ 98 ∷ []) ∷ i32_field 258 ∷ string_field (99 ∷ []) ∷ []

process_decoders_pipeline-key_example :
    process_decoders_pipeline plain (key fields ++ 7 ∷ []) (elements fields)
    ≡ some (all_shown plain fields)
process_decoders_pipeline-key_example =
    process_decoders_pipeline-key plain fields (7 ∷ []) (refl, (omega arith, (tt, tt)))

parse_format_string-enough_example :
    (r : Parsed (List DecodeElement)) × (parse_format_string 3 (97 ∷ 37 ∷ 105 ∷ []) ≡ some r)
    × (parse_format_string 9 (97 ∷ 37 ∷ 105 ∷ []) ≡ some r)
parse_format_string-enough_example =
    parse_format_string-enough 3 9 (97 ∷ 37 ∷ 105 ∷ []) (omega arith) (omega arith)

-- The format "%ia": the plain string behind the last element is read as the empty one.
trailing_plain :
    parse_format_string 3 (37 ∷ 105 ∷ 97 ∷ [])
    ≡ some (ok (some (big_endian_i32 ∷ known_string [] ∷ [])))
unfolding parse_format_string split_percent percent_element
trailing_plain = refl

abbrev two_keys : Database
two_keys = record {
  prefixed_iter_values = λ column prefix. some ((97 ∷ 5 ∷ [], 1 ∷ []) ∷ (97 ∷ 6 ∷ [], []) ∷ []);
}

abbrev one_result : KeyDecodeOptions
one_result = record {
  lim = some 1;
  ignore_failures = false;
  column = [];
  decode_fmt = 97 ∷ 37 ∷ 115 ∷ 49 ∷ [];
}

-- The format "a%s1", and one result at most.
decode_keys_limited :
    decode_keys plain two_keys one_result
    ≡ some
        (ok (some (record { fields = text (97 ∷ []) ∷ text (5 ∷ []) ∷ []; value_size = 1 } ∷ [])))
unfolding decode_keys decode_prefix decode_entries decode_entry expected_key_len consume_size
    process_decoders_pipeline decoder bytes_beq parse_format_string split_percent percent_element
    take_digits parse_usize digits_value
decode_keys_limited = refl
