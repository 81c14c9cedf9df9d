-- ===== src/Text/Words.antt =====
-- `split_whitespace`, `split`, `split_once` and `lines` on text that was put together from pieces.
use freemkv_engine.Base.{
  ℕ, ◌≡◌, refl, Bool, true, false, not, ◌&&◌, some, [], ◌∷◌, ◌++◌, arith, ◌==◌, All,
}
use freemkv_engine.Text.{Chars, is_whitespace, lines, split_whitespace, split, split_once}

abbrev pub IsWord : Chars → Type 0
IsWord = All (λ c. is_whitespace c ≡ false)

-- A word, then white space: the word is the first field.
pub split_whitespace-word :
    (c : ℕ) (cs : Chars) (space : ℕ) (more : Chars)
    → IsWord (c ∷ cs)
    → is_whitespace space ≡ true
    → split_whitespace ((c ∷ cs) ++ space ∷ more) ≡ (c ∷ cs) ∷ split_whitespace more
unfolding split_whitespace
split_whitespace-word c [] space more h s = ground arith
split_whitespace-word c (d ∷ cs) space more h s =
    ground (arith, split_whitespace-word d cs space more h.1 s)

-- Text without the separator.
abbrev pub IsFree : ℕ → Chars → Type 0
IsFree sep = All (λ c. (c == sep) ≡ false)

pub split_free : (sep : ℕ) (cs : Chars) → IsFree sep cs → split sep cs ≡ cs ∷ []
unfolding split
split_free sep [] h = refl
split_free sep (c ∷ cs) h = ground (arith, split_free sep cs h.1)

pub split-piece :
    (sep : ℕ) (cs more : Chars) → IsFree sep cs → split sep (cs ++ sep ∷ more) ≡ cs ∷ split sep more
unfolding split
split-piece sep [] more h = ground arith
split-piece sep (c ∷ cs) more h = ground (arith, split-piece sep cs more h.1)

pub split_once-piece :
    (sep : ℕ) (cs more : Chars)
    → IsFree sep cs
    → split_once sep (cs ++ sep ∷ more) ≡ some (cs, more)
unfolding split_once
split_once-piece sep [] more h = ground arith
split_once-piece sep (c ∷ cs) more h = ground (arith, split_once-piece sep cs more h.1)

-- Text of one line: no line feed, and no carriage return.
abbrev pub is_inline : ℕ → Bool
is_inline c = not (c == 10) && not (c == 13)

abbrev pub is_line : Chars → Bool
is_line [] = true
is_line (c ∷ cs) = is_inline c && is_line cs

abbrev pub IsLine : Chars → Type 0
IsLine cs = is_line cs ≡ true

pub lines-line : (cs more : Chars) → IsLine cs → lines (cs ++ 10 ∷ more) ≡ cs ∷ lines more
unfolding lines
lines-line [] more h = refl
lines-line (c ∷ cs) more h = ground (arith, lines-line cs more)

pub IsFree-append :
    (sep : ℕ) (xs bs : Chars) → IsFree sep xs → IsFree sep bs → IsFree sep (xs ++ bs)
IsFree-append sep [] bs h i = i
IsFree-append sep (a ∷ xs) bs h i = (h.0, IsFree-append sep xs bs h.1 i)

pub IsLine-append : (xs ys : Chars) → IsLine xs → IsLine ys → IsLine (xs ++ ys)
IsLine-append [] ys h i = i
IsLine-append (x ∷ xs) ys h i = ground (arith, IsLine-append xs ys)
