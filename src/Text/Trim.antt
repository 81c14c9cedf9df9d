-- ===== src/Text/Trim.antt =====
-- `trim` on text that neither begins nor ends with white space.
use freemkv_engine.Base.{
  ℕ, ◌≡◌, refl, Bool, true, false, not, ◌&&◌, ◌||◌, [], ◌∷◌, ◌++◌, arith, leb, All,
}
use freemkv_engine.Text.{Chars, is_whitespace, trim_start, trim_end, trim, starts_with}

abbrev pub is_solid : ℕ → Bool
is_solid c = not (is_whitespace c)

-- The last character is no white space.
abbrev pub ends_solid : Chars → Bool
ends_solid [] = false
ends_solid (c ∷ []) = is_solid c
ends_solid (c ∷ d ∷ cs) = ends_solid (d ∷ cs)

-- The first and the last character are no white space.
abbrev pub is_tight : Chars → Bool
is_tight cs = starts_with is_solid cs && ends_solid cs

trim_end_solid : (cs : Chars) → ends_solid cs ≡ true → trim_end cs ≡ cs
unfolding trim_end
trim_end_solid [] h = refl
trim_end_solid (c ∷ []) h = ground arith
trim_end_solid (c ∷ d ∷ cs) h = rw (trim_end_solid (d ∷ cs) h, trim_end) refl

trim_start_solid : (cs : Chars) → starts_with is_solid cs ≡ true → trim_start cs ≡ cs
unfolding trim_start
trim_start_solid [] h = refl
trim_start_solid (c ∷ cs) h = ground arith

pub trim_tight : (cs : Chars) → is_tight cs ≡ true → trim cs ≡ cs
unfolding trim
trim_tight cs h = rw (trim_start_solid cs (ground arith)) (trim_end_solid cs (ground arith))

-- A white space character before tight text is trimmed off.
pub trim_space : (c : ℕ) (cs : Chars) → is_whitespace c ≡ true → trim (c ∷ cs) ≡ trim cs
unfolding trim trim_start
trim_space c cs h = rw h refl

-- The end of a text with a solid end.
pub ends_solid-append : (xs bs : Chars) → ends_solid bs ≡ true → ends_solid (xs ++ bs) ≡ true
ends_solid-append [] bs h = h
ends_solid-append (a ∷ []) [] h = cc
ends_solid-append (a ∷ []) (b ∷ bs) h = h
ends_solid-append (a ∷ d ∷ xs) bs h = ends_solid-append (d ∷ xs) bs h

-- A lower-case hexadecimal digit.
abbrev pub is_hex_lower : ℕ → Bool
is_hex_lower c = (leb 48 c && leb c 57) || (leb 97 c && leb c 102)

pub hex_lower-solid : (c : ℕ) → is_hex_lower c ≡ true → is_whitespace c ≡ false
unfolding is_whitespace
hex_lower-solid c h = ground arith

abbrev pub IsHexText : Chars → Type 0
IsHexText = All (λ c. is_hex_lower c ≡ true)

pub IsHexText-ends_solid : (c : ℕ) (cs : Chars) → IsHexText (c ∷ cs) → ends_solid (c ∷ cs) ≡ true
IsHexText-ends_solid c [] h = rw (hex_lower-solid c h.0) refl
IsHexText-ends_solid c (d ∷ cs) h = IsHexText-ends_solid d cs h.1

pub IsHexText-is_tight : (c : ℕ) (cs : Chars) → IsHexText (c ∷ cs) → is_tight (c ∷ cs) ≡ true
IsHexText-is_tight c cs h = rw (hex_lower-solid c h.0) (IsHexText-ends_solid c cs h)
