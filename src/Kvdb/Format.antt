-- ===== src/Kvdb/Format.antt =====
-- `parse_format_string` of kvdb/src/decode.rs, on the bytes of the format, and that the loop ends.
use polkadot_introspector.Prelude.{
  ℕ, zero, suc, ◌+◌, ◌*◌, ◌-◌, ◌^◌, ◌≤◌, ◌<◌, ◌≡◌, refl, sym, ◌∙◌, ap, arith, Bool, true, false,
  ◌&&◌, Option, none, some, List, [], ◌∷◌, ◌==◌, nat_eq, if◌then◌else◌, ltb, leb, length, drop,
  Outcome, ok, panic,
}
use polkadot_introspector.Kvdb.{
  DecodeElement, big_endian_i32, big_endian_timestamp, blake2b_hash, known_string, unknown_string,
}

-- An error of the parser is `none`.
abbrev pub Parsed : Type 0 → Type 0
Parsed A = Outcome (Option A)

-- What the loop gives: `none` if its fuel runs out, which the source has no counterpart of.
abbrev pub Looped : Type 0
Looped = Option (Parsed (List DecodeElement))

abbrev pub add_plain : ℕ → Option (List ℕ × List ℕ) → Option (List ℕ × List ℕ)
add_plain c none = none
add_plain c (some (plain, leftover)) = some (c ∷ plain, leftover)

-- `find('%')` and `split_at`: what stands before the first percent sign, and what stands after it.
unfoldable pub split_percent : List ℕ → Option (List ℕ × List ℕ)
split_percent [] = none
split_percent (c ∷ cs) =
    let rest = split_percent cs in if c == 37 then some ([], cs) else add_plain c rest

abbrev pub is_ascii_digit : ℕ → Bool
is_ascii_digit c = leb 48 c && leb c 57

unfoldable pub take_digits : List ℕ → List ℕ
take_digits [] = []
take_digits (c ∷ cs) = let rest = take_digits cs in if is_ascii_digit c then c ∷ rest else []

unfoldable pub digits_value : ℕ → List ℕ → ℕ
digits_value n [] = n
digits_value n (c ∷ cs) = digits_value (10 * n + (c - 48)) cs

-- `parse::<usize>` of digits: none at all, or a number that does not fit, is an error.
unfoldable pub parse_usize : List ℕ → Option ℕ
unfolding digits_value
parse_usize [] = none
parse_usize (c ∷ cs) = let n = digits_value 0 (c ∷ cs) in if ltb n (2 ^ 64) then some n else none

-- The size after `%s`, which may not be 0.
abbrev pub sized : Option ℕ → List ℕ → Parsed (DecodeElement × List ℕ)
sized none rest = ok none
sized (some zero) rest = ok none
sized (some (suc n)) rest = ok (some (unknown_string (suc n), rest))

-- The element after a percent sign, and what is left behind it. A character of more than one byte has no
-- boundary behind its first byte, where the source unwraps.
unfoldable pub percent_element : List ℕ → Parsed (DecodeElement × List ℕ)
unfolding take_digits parse_usize
percent_element [] = ok none
percent_element (c ∷ rest) =
    if leb 128 c
    then panic
    else if c == 105
    then ok (some (big_endian_i32, rest))
    else if c == 116
    then ok (some (big_endian_timestamp, rest))
    else if c == 104
    then ok (some (blake2b_hash, rest))
    else if c == 115
    then sized (parse_usize (take_digits rest)) (drop (length (take_digits rest)) rest)
    else ok none

-- A plain string that is not empty is an element of its own.
abbrev pub plain_element : List ℕ → List DecodeElement → List DecodeElement
plain_element [] decoders = decoders
plain_element (c ∷ cs) decoders = known_string (c ∷ cs) ∷ decoders

abbrev pub prepend : List ℕ → DecodeElement → Looped → Looped
prepend plain d none = none
prepend plain d (some panic) = some panic
prepend plain d (some (ok none)) = some (ok none)
prepend plain d (some (ok (some decoders))) = some (ok (some (plain_element plain (d ∷ decoders))))

-- One round of the loop, at the split of what is left. With no percent sign left, `str_remain` is set
-- to the empty string before it is pushed.
abbrev pub element_round : (List ℕ → Looped) → List ℕ → Parsed (DecodeElement × List ℕ) → Looped
element_round loop plain panic = some panic
element_round loop plain (ok none) = some (ok none)
element_round loop plain (ok (some (d, rest))) = prepend plain d (loop rest)

abbrev pub split_round : (List ℕ → Looped) → Option (List ℕ × List ℕ) → Looped
split_round loop none = some (ok (some (known_string [] ∷ [])))
split_round loop (some (plain, leftover)) = element_round loop plain (percent_element leftover)

-- The loop, with one unit of fuel for each round.
unfoldable pub parse_format_string : ℕ → List ℕ → Looped
unfolding split_percent percent_element
parse_format_string n [] = some (ok (some []))
parse_format_string zero (c ∷ cs) = none
parse_format_string (suc n) (c ∷ cs) = split_round (parse_format_string n) (split_percent (c ∷ cs))

-- What is left behind a percent sign is shorter.
abbrev RestLt : ℕ → Option (List ℕ × List ℕ) → Type 0
RestLt n none = Unit
RestLt n (some (plain, leftover)) = length leftover < n

choose-RestLt :
    (b : Bool) (c : ℕ) (cs : List ℕ) (o : Option (List ℕ × List ℕ))
    → RestLt (suc (length cs)) o
    → RestLt (suc (length cs)) (if b then some ([], cs) else add_plain c o)
choose-RestLt true c cs o h = omega arith
choose-RestLt false c cs none h = tt
choose-RestLt false c cs (some (plain, leftover)) h = h

grow-RestLt : (n : ℕ) (o : Option (List ℕ × List ℕ)) → RestLt n o → RestLt (suc n) o
grow-RestLt n none h = tt
grow-RestLt n (some (plain, leftover)) h = omega arith

split_percent-RestLt : (s : List ℕ) → RestLt (length s) (split_percent s)
unfolding split_percent
split_percent-RestLt [] = tt
split_percent-RestLt (c ∷ cs) =
    choose-RestLt (c == 37) c cs (split_percent cs)
      (grow-RestLt (length cs) (split_percent cs) (split_percent-RestLt cs))

abbrev LeftLe : ℕ → Parsed (DecodeElement × List ℕ) → Type 0
LeftLe n panic = Unit
LeftLe n (ok none) = Unit
LeftLe n (ok (some (d, rest))) = length rest ≤ n

if-LeftLe :
    (n : ℕ) (b : Bool) (x y : Parsed (DecodeElement × List ℕ))
    → LeftLe n x
    → LeftLe n y
    → LeftLe n (if b then x else y)
if-LeftLe n true x y h k = h
if-LeftLe n false x y h k = k

length-drop : (n : ℕ) (s : List ℕ) → length (drop n s) ≤ length s
length-drop zero s = omega arith
length-drop (suc n) [] = omega arith
length-drop (suc n) (c ∷ cs) = omega (arith, length-drop n cs)

sized-LeftLe : (o : Option ℕ) (n : ℕ) (rest : List ℕ) → length rest ≤ n → LeftLe n (sized o rest)
sized-LeftLe none n rest h = tt
sized-LeftLe (some zero) n rest h = tt
sized-LeftLe (some (suc m)) n rest h = h

percent_element-LeftLe : (s : List ℕ) → LeftLe (length s) (percent_element s)
unfolding percent_element
percent_element-LeftLe [] = tt
percent_element-LeftLe (c ∷ rest) =
    let n = suc (length rest) in
    let le : length rest ≤ n = omega arith in
    let dropped = length-drop (length (take_digits rest)) rest in
    if-LeftLe n (leb 128 c) _ _ tt (
      if-LeftLe n (c == 105) _ _ le (
        if-LeftLe n (c == 116) _ _ le (
          if-LeftLe n (c == 104) _ _ le (
            if-LeftLe n (c == 115) _ _
              (sized-LeftLe (parse_usize (take_digits rest)) n _ (omega arith)) tt))))

-- Two loops that agree on what is shorter.
module _ (f g : List ℕ → Looped) (n : ℕ) where
  element_round-agree :
      (plain : List ℕ) (e : Parsed (DecodeElement × List ℕ))
      → LeftLe n e
      → ((s : List ℕ) → length s ≤ n → f s ≡ g s)
      → element_round f plain e ≡ element_round g plain e
  element_round-agree plain panic h k = refl
  element_round-agree plain (ok none) h k = refl
  element_round-agree plain (ok (some (d, rest))) h k = ap (prepend plain d) (k rest h)

grow-LeftLe : (m n : ℕ) (e : Parsed (DecodeElement × List ℕ)) → m ≤ n → LeftLe m e → LeftLe n e
grow-LeftLe m n panic l h = tt
grow-LeftLe m n (ok none) l h = tt
grow-LeftLe m n (ok (some (d, rest))) l h = omega arith

split_round-agree :
    (f g : List ℕ → Looped) (n : ℕ) (o : Option (List ℕ × List ℕ))
    → RestLt (suc n) o
    → ((s : List ℕ) → length s ≤ n → f s ≡ g s)
    → split_round f o ≡ split_round g o
split_round-agree f g n none h k = refl
split_round-agree f g n (some (plain, leftover)) h k =
    element_round-agree f g n plain (percent_element leftover)
      (grow-LeftLe (length leftover) n (percent_element leftover) (omega arith)
        (percent_element-LeftLe leftover))
      k

-- More fuel than the format has bytes changes nothing.
parse_format_string-agree :
    (n m : ℕ) (s : List ℕ)
    → length s ≤ n
    → length s ≤ m
    → parse_format_string n s ≡ parse_format_string m s
unfolding parse_format_string
parse_format_string-agree n m [] h k = refl
parse_format_string-agree zero m (c ∷ cs) h k = absurd (omega arith)
parse_format_string-agree (suc n) zero (c ∷ cs) h k = absurd (omega arith)
parse_format_string-agree (suc n) (suc m) (c ∷ cs) h k =
    split_round-agree (parse_format_string n) (parse_format_string m) (length cs)
      (split_percent (c ∷ cs)) (split_percent-RestLt (c ∷ cs))
      (λ s l. parse_format_string-agree n m s (omega arith) (omega arith))

-- The loop comes to an end.
abbrev Returns : Looped → Type 0
Returns o = (r : Parsed (List DecodeElement)) × (o ≡ some r)

prepend-Returns :
    (plain : List ℕ) (d : DecodeElement) (o : Looped) → Returns o → Returns (prepend plain d o)
prepend-Returns plain d none (r, e) = absurd (cc e)
prepend-Returns plain d (some panic) h = (panic, refl)
prepend-Returns plain d (some (ok none)) h = (ok none, refl)
prepend-Returns plain d (some (ok (some ds))) h = (ok (some (plain_element plain (d ∷ ds))), refl)

module _ (f : List ℕ → Looped) (n : ℕ) (ends : (s : List ℕ) → length s ≤ n → Returns (f s)) where
  element_round-Returns :
      (plain : List ℕ) (e : Parsed (DecodeElement × List ℕ))
      → LeftLe n e
      → Returns (element_round f plain e)
  element_round-Returns plain panic h = (panic, refl)
  element_round-Returns plain (ok none) h = (ok none, refl)
  element_round-Returns plain (ok (some (d, rest))) h =
      prepend-Returns plain d (f rest) (ends rest h)

  split_round-Returns :
      (o : Option (List ℕ × List ℕ)) → RestLt (suc n) o → Returns (split_round f o)
  split_round-Returns none h = (ok (some (known_string [] ∷ [])), refl)
  split_round-Returns (some (plain, leftover)) h =
      element_round-Returns plain (percent_element leftover) (
        grow-LeftLe (length leftover) n (percent_element leftover) (omega arith)
          (percent_element-LeftLe leftover))

parse_format_string-Returns :
    (n : ℕ) (s : List ℕ) → length s ≤ n → Returns (parse_format_string n s)
unfolding parse_format_string
parse_format_string-Returns n [] h = (ok (some []), refl)
parse_format_string-Returns zero (c ∷ cs) h = absurd (omega arith)
parse_format_string-Returns (suc n) (c ∷ cs) h =
    split_round-Returns (parse_format_string n) (length cs)
      (λ s l. parse_format_string-Returns n s (omega arith)) (split_percent (c ∷ cs))
      (split_percent-RestLt (c ∷ cs))

-- With as much fuel as the format has bytes, the parser comes to an end: its fuel does not run out, and
-- it gives the same result for any such amount of it.
pub parse_format_string-enough :
    (n m : ℕ) (s : List ℕ)
    → length s ≤ n
    → length s ≤ m
    → (r : Parsed (List DecodeElement)) × (parse_format_string n s ≡ some r)
      × (parse_format_string m s ≡ some r)
parse_format_string-enough n m s h k =
    let (r, e) = parse_format_string-Returns n s h in
    (r, e, sym (parse_format_string-agree n m s h k) ∙ e)
