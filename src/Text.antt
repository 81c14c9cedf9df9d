-- ===== src/Text.antt =====
-- The functions of Rust's `str` and `u64` that the parsers of the engine call, over code points.
pub mod Trim
pub mod Words
use Prim.Native.Char.{code}
use Prim.Native.String.{String}
use freemkv_engine.Base.{
  ℕ, ◌+◌, ◌-◌, ◌*◌, Bool, true, false, not, ◌&&◌, ◌||◌, Option, none, some, List, [], ◌∷◌, ltb, leb,
  ◌==◌, if◌then◌else◌,
}

-- Text as code points.
abbrev pub Chars : Type 0
Chars = List ℕ

-- A string literal as its code points.
abbrev pub chars : String → Chars
chars String.[] = []
chars (String.◌∷◌ c s) = code c ∷ chars s

-- `is_empty`.
abbrev pub is_empty : Chars → Bool
is_empty [] = true
is_empty (c ∷ cs) = false

-- `char::is_whitespace`: the code points with the property White_Space.
unfoldable pub is_whitespace : ℕ → Bool
is_whitespace c =
    (leb 9 c && leb c 13)
    || c == 32
    || c == 133
    || c == 160
    || c == 5760
    || (leb 8192 c && leb c 8202)
    || c == 8232
    || c == 8233
    || c == 8239
    || c == 8287
    || c == 12288

-- `trim_start`, `trim_end` and `trim`.
unfoldable pub trim_start : Chars → Chars
trim_start [] = []
trim_start (c ∷ cs) = if is_whitespace c then trim_start cs else c ∷ cs

abbrev pub end_char : ℕ → Chars → Chars
end_char c [] = if is_whitespace c then [] else c ∷ []
end_char c (d ∷ cs) = c ∷ d ∷ cs

unfoldable pub trim_end : Chars → Chars
trim_end [] = []
trim_end (c ∷ cs) = end_char c (trim_end cs)

unfoldable pub trim : Chars → Chars
trim cs = trim_end (trim_start cs)

-- A character put on the first of the pieces.
abbrev pub onto_first : ℕ → List Chars → List Chars
onto_first c [] = (c ∷ []) ∷ []
onto_first c (l ∷ ls) = (c ∷ l) ∷ ls

abbrev pub starts_with : (ℕ → Bool) → Chars → Bool
starts_with test [] = false
starts_with test (c ∷ cs) = test c

-- `str::lines`: a line ends with a line feed, or with a carriage return and a line feed.
unfoldable pub lines : Chars → List Chars
lines [] = []
lines (c ∷ cs) =
    if c == 10
    then [] ∷ lines cs
    else if c == 13 && starts_with (λ d. d == 10) cs
    then lines cs
    else onto_first c (lines cs)

-- `str::split_whitespace`.
unfoldable pub split_whitespace : Chars → List Chars
split_whitespace [] = []
split_whitespace (c ∷ cs) =
    if is_whitespace c
    then split_whitespace cs
    else if starts_with (λ d. not (is_whitespace d)) cs
    then onto_first c (split_whitespace cs)
    else (c ∷ []) ∷ split_whitespace cs

-- `str::split` at a character: one piece more than separators.
unfoldable pub split : ℕ → Chars → List Chars
split sep [] = [] ∷ []
split sep (c ∷ cs) = if c == sep then [] ∷ split sep cs else onto_first c (split sep cs)

-- `str::split_once` at a character.
unfoldable pub split_once : ℕ → Chars → Option (Chars × Chars)
split_once sep [] = none
split_once sep (c ∷ cs) =
    if c == sep
    then some ([], cs)
    else elim (split_once sep cs) [ none ↦ none | some parts ↦ some (c ∷ parts.0, parts.1) ]

-- `str::strip_prefix`.
unfoldable pub strip_prefix : Chars → Chars → Option Chars
strip_prefix [] cs = some cs
strip_prefix (p ∷ ps) [] = none
strip_prefix (p ∷ ps) (c ∷ cs) = if p == c then strip_prefix ps cs else none

-- `char::to_digit`, for a radix of at most 16.
unfoldable pub to_digit : ℕ → ℕ → Option ℕ
to_digit radix c =
    let value =
      if leb 48 c && leb c 57
      then c - 48
      else if leb 97 c && leb c 102
      then c - 87
      else if leb 65 c && leb c 70
      then c - 55
      else radix in
    if ltb value radix then some value else none

-- The digits of a number that is at most `top`.
unfoldable pub parse_digits : ℕ → ℕ → ℕ → Chars → Option ℕ
parse_digits radix top acc [] = some acc
parse_digits radix top acc (c ∷ cs) = elim (to_digit radix c) [
  | none ↦ none
  | some d ↦ if leb (acc * radix + d) top then parse_digits radix top (acc * radix + d) cs else none
]

abbrev pub strip_plus : Chars → Chars
strip_plus [] = []
strip_plus (c ∷ cs) = if c == b'+' then cs else c ∷ cs

-- `from_str_radix` of an unsigned integer: an optional plus sign, then at least one digit.
unfoldable pub from_str_radix : ℕ → ℕ → Chars → Option ℕ
from_str_radix radix top cs = elim (strip_plus cs) [
  | [] ↦ none
  | d ∷ ds ↦ parse_digits radix top 0 (d ∷ ds)
]
