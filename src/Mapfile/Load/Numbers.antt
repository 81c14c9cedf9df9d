-- ===== src/Mapfile/Load/Numbers.antt =====
-- The hexadecimal numbers of the mapfile (src/recovery/mapfile.rs): what is printed is parsed back.
use freemkv_engine.Base.{
  ℕ, zero, suc, ◌+◌, ◌-◌, ◌*◌, ◌/◌, ◌%◌, ◌≤◌, ◌<◌, ◌≡◌, refl, ap, sym, subst, ◌∙◌, true, some, List,
  [], ◌∷◌, arith, ltb, All, u64_max, length, Bool-cases, inl, inr,
}
use freemkv_engine.Text.{Chars, to_digit, parse_digits, from_str_radix, strip_prefix}
use freemkv_engine.Text.Trim.{is_hex_lower, IsHexText}
use freemkv_engine.Mapfile.Render.{hex_digit, hex_onto, to_hex, zeros, hex_field, hex_lower}
use freemkv_engine.Mapfile.State.{ok}
use freemkv_engine.Mapfile.Load.{parse_hex}

hex_digit-lower : (d : ℕ) → d < 16 → is_hex_lower (hex_digit d) ≡ true
unfolding hex_digit
hex_digit-lower d h = ground arith

pub to_digit-hex_digit : (d : ℕ) → d < 16 → to_digit 16 (hex_digit d) ≡ some d
unfolding hex_digit to_digit
to_digit-hex_digit d h = ground arith

-- The numbers below it have at most that many hexadecimal digits.
abbrev hex_bound : ℕ → ℕ
hex_bound zero = 1
hex_bound (suc fuel) = 16 * hex_bound fuel

parse_digit :
    (top acc d v : ℕ) (text : Chars)
    → d < 16
    → acc * 16 + d ≡ v
    → v ≤ top
    → parse_digits 16 top acc (hex_digit d ∷ text) ≡ parse_digits 16 top v text
unfolding parse_digits
parse_digit top acc d v text h e i = ground (arith, to_digit-hex_digit d h)

parse_digits-hex_onto :
    (top fuel n : ℕ) (text : Chars)
    → n < hex_bound fuel
    → n ≤ top
    → parse_digits 16 top 0 (hex_onto fuel n text) ≡ parse_digits 16 top n text
unfolding hex_onto
parse_digits-hex_onto top zero n text h i =
    ap (λ t. parse_digits 16 top t text) {x = 0} {y = n} (omega arith)
parse_digits-hex_onto top (suc fuel) n text h i = elim (Bool-cases (ltb n 16)) [
  | inl small ↦ rw small (parse_digit top 0 n n text (ground arith) (omega arith) i)
  | inr big ↦ rw big (
      parse_digits-hex_onto top fuel (n / 16) (hex_digit (n % 16) ∷ text) (omega arith)
        (omega arith)
      ∙ parse_digit top (n / 16) (n % 16) n text (omega arith) (omega arith) i)
]

IsHexText-hex_onto : (fuel n : ℕ) (text : Chars) → IsHexText text → IsHexText (hex_onto fuel n text)
unfolding hex_onto
IsHexText-hex_onto zero n text h = h
IsHexText-hex_onto (suc fuel) n text h = elim (Bool-cases (ltb n 16)) [
  | inl small ↦ rw small (hex_digit-lower n (ground arith), h)
  | inr big ↦ rw big (
      IsHexText-hex_onto fuel (n / 16) (hex_digit (n % 16) ∷ text)
        (hex_digit-lower (n % 16) (omega arith), h))
]

pub IsHexText-to_hex : (n : ℕ) → IsHexText (to_hex n)
unfolding to_hex
IsHexText-to_hex n = IsHexText-hex_onto 16 n [] tt

pub IsHexText-zeros : (k : ℕ) (text : Chars) → IsHexText text → IsHexText (zeros k text)
unfolding zeros
IsHexText-zeros zero text h = h
IsHexText-zeros (suc k) text h = (refl, IsHexText-zeros k text h)

pub IsHexText-hex_lower : (bytes : List ℕ) → All (λ b. b ≤ 255) bytes → IsHexText (hex_lower bytes)
unfolding hex_lower
IsHexText-hex_lower [] h = tt
IsHexText-hex_lower (b ∷ bytes) h = (
  hex_digit-lower (b / 16) (omega arith),
  (hex_digit-lower (b % 16) (omega arith), IsHexText-hex_lower bytes h.1),
)

to_digit-zero : to_digit 16 b'0' ≡ some 0
unfolding to_digit
to_digit-zero = refl

parse_digits-zeros :
    (top k : ℕ) (text : Chars) → parse_digits 16 top 0 (zeros k text) ≡ parse_digits 16 top 0 text
unfolding zeros parse_digits
parse_digits-zeros top zero text = refl
parse_digits-zeros top (suc k) text = ground (arith, to_digit-zero, parse_digits-zeros top k text)

-- The digits of a number, with leading zeros, are parsed as that number.
parse_digits-to_hex :
    (k n : ℕ) → n ≤ u64_max → parse_digits 16 u64_max 0 (zeros k (to_hex n)) ≡ some n
unfolding to_hex
parse_digits-to_hex k n h =
    parse_digits-zeros u64_max k (to_hex n)
    ∙ parse_digits-hex_onto u64_max 16 n [] (omega arith) h
    ∙ unfold parse_digits in refl

hex_onto-cons :
    (fuel n c : ℕ) (text : Chars) → (d : ℕ) × (ds : Chars) × (hex_onto fuel n (c ∷ text) ≡ d ∷ ds)
unfolding hex_onto
hex_onto-cons zero n c text = (c, text, refl)
hex_onto-cons (suc fuel) n c text = elim (Bool-cases (ltb n 16)) [
  | inl small ↦ rw small (hex_digit n, c ∷ text, refl)
  | inr big ↦ rw big (hex_onto-cons fuel (n / 16) (hex_digit (n % 16)) (c ∷ text))
]

-- The text of a number is not empty.
pub to_hex-cons : (n : ℕ) → (d : ℕ) × (ds : Chars) × (to_hex n ≡ d ∷ ds)
unfolding to_hex hex_onto
to_hex-cons n = elim (Bool-cases (ltb n 16)) [
  | inl small ↦ rw small (hex_digit n, [], refl)
  | inr big ↦ rw big (hex_onto-cons 15 (n / 16) (hex_digit (n % 16)) [])
]

pub zeros-cons : (k n : ℕ) → (d : ℕ) × (ds : Chars) × (zeros k (to_hex n) ≡ d ∷ ds)
unfolding zeros
zeros-cons zero n = to_hex-cons n
zeros-cons (suc k) n = (b'0', zeros k (to_hex n), refl)

-- Digits are parsed from the first one on, as none is a plus sign.
from_str_radix-digits :
    (top d : ℕ) (ds : Chars)
    → IsHexText (d ∷ ds)
    → from_str_radix 16 top (d ∷ ds) ≡ parse_digits 16 top 0 (d ∷ ds)
unfolding from_str_radix
from_str_radix-digits top d ds h = ground arith

from_str_radix-to_hex :
    (k n : ℕ) → n ≤ u64_max → from_str_radix 16 u64_max (zeros k (to_hex n)) ≡ some n
from_str_radix-to_hex k n h =
    let (d, ds, e) = zeros-cons k n in
    ap (from_str_radix 16 u64_max) e
    ∙ from_str_radix-digits u64_max d ds
        (subst IsHexText e (IsHexText-zeros k (to_hex n) (IsHexText-to_hex n)))
    ∙ ap (parse_digits 16 u64_max 0) (sym e)
    ∙ parse_digits-to_hex k n h

-- `0x` and the digits of a number are parsed as that number.
pub parse_hex-zeros : (k n : ℕ) → n ≤ u64_max → parse_hex (b'0' ∷ b'x' ∷ zeros k (to_hex n)) ≡ ok n
unfolding parse_hex strip_prefix
parse_hex-zeros k n h = rw (from_str_radix-to_hex k n h) refl

pub parse_hex-to_hex : (n : ℕ) → n ≤ u64_max → parse_hex (b'0' ∷ b'x' ∷ to_hex n) ≡ ok n
unfolding zeros
parse_hex-to_hex n h = parse_hex-zeros 0 n h

pub parse_hex-hex_field : (n : ℕ) → n ≤ u64_max → parse_hex (hex_field n) ≡ ok n
unfolding hex_field
parse_hex-hex_field n h = parse_hex-zeros (9 - length (to_hex n)) n h
