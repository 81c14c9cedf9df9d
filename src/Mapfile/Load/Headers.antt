-- ===== src/Mapfile/Load/Headers.antt =====
-- How `load` of src/recovery/mapfile.rs takes the headers that `write_locked` writes.
use freemkv_engine.Base.{
  ℕ, ◌/◌, ◌%◌, ◌≤◌, ◌<◌, ◌≡◌, refl, ap, sym, ◌∙◌, Bool, true, false, Option, none, some, List, [],
  ◌∷◌, ◌++◌, arith, All, length, append_assoc, append-nil,
}
use freemkv_engine.Text.{
  Chars, chars, trim, trim_start, trim_end, is_whitespace, strip_prefix, split_whitespace,
}
use freemkv_engine.Mapfile.Status.{from_char}
use freemkv_engine.Text.Trim.{
  is_solid, is_tight, ends_solid, trim_tight, trim_space, ends_solid-append, IsHexText-is_tight,
}
use freemkv_engine.Mapfile.State.{ok}
use freemkv_engine.Mapfile.Render.{hex_digit, hex_lower, header_line, keyfp_lines, raw_text}
use freemkv_engine.Mapfile.Load.{
  Library, Parsed, comment_line, parse_line, parse_lines, parse_disc_hash, data_line,
  is_current_line,
}
use freemkv_engine.Mapfile.Load.Numbers.{IsHexText-hex_lower}
use freemkv_engine.Mapfile.Load.Lines.{parse_line-comment}

-- A number of bytes.
abbrev pub IsBytes : ℕ → List ℕ → Type 0
IsBytes n bytes = (length bytes ≡ n) × All (λ b. b ≤ 255) bytes

-- `parse_hex_fixed` reads the lower-case digits of as many bytes as it is asked for.
pub record ReadsHex (lib : Library) : Type 0 where
  pub reads_hex :
      (n : ℕ) (bytes : List ℕ)
      → IsBytes n bytes
      → lib.parse_hex_fixed n (hex_lower bytes) ≡ some bytes

-- A disc hash in the form that `parse_disc_hash` gives it.
abbrev pub IsDiscHash : Chars → Type 0
IsDiscHash hash = (bytes : List ℕ) × IsBytes 20 bytes × (hash ≡ hex_lower bytes)

abbrev pub Optional {ℓ} : {A : Type ℓ} → (A → Type 0) → Option A → Type 0
Optional P none = Unit {0}
Optional P (some a) = P a

hex_lower-is_tight :
    (n : ℕ) (bytes : List ℕ) → IsBytes n bytes → 0 < n → is_tight (hex_lower bytes) ≡ true
unfolding hex_lower
hex_lower-is_tight n [] h i = ground arith
hex_lower-is_tight n (b ∷ bytes) h i =
    IsHexText-is_tight (hex_digit (b / 16)) (hex_digit (b % 16) ∷ hex_lower bytes)
      (IsHexText-hex_lower (b ∷ bytes) h.1)

pub trim_value : (cs : Chars) → is_tight cs ≡ true → trim (32 ∷ cs) ≡ cs
trim_value cs h = trim_space 32 cs (unfold is_whitespace in refl) ∙ trim_tight cs h

tight_end : (cs : Chars) → is_tight cs ≡ true → ends_solid cs ≡ true
tight_end cs h = ground arith

-- A comment that ends with tight text.
pub comment-is_tight :
    (c : ℕ) (prefix cs : Chars)
    → is_solid c ≡ true
    → is_tight cs ≡ true
    → is_tight (c ∷ prefix ++ cs) ≡ true
comment-is_tight c prefix cs h t = rw (h, ends_solid-append (c ∷ prefix) cs (tight_end cs t)) refl

module _ (lib : Library) (reads : ReadsHex lib) where
  parse_disc_hash-hex_lower :
      (bytes : List ℕ)
      → IsBytes 20 bytes
      → parse_disc_hash lib (hex_lower bytes) ≡ some (hex_lower bytes)
  parse_disc_hash-hex_lower bytes h = rw (reads.reads_hex 20 bytes h, parse_disc_hash) refl

  parse_line-vidfp :
      (fp : List ℕ) (p : Parsed)
      → IsBytes 32 fp
      → parse_line lib (chars "# freemkv-vidfp: " ++ hex_lower fp) p
        ≡ ok (record p { vidfp = some fp })
  unfolding comment_line strip_prefix
  parse_line-vidfp fp p h =
      let t = hex_lower-is_tight 32 fp h (omega arith) in
      parse_line-comment lib b'f' (chars "reemkv-vidfp: " ++ hex_lower fp) p (
        comment-is_tight b'f' (chars "reemkv-vidfp: ") (hex_lower fp) (unfold is_whitespace in refl)
          t)
      ∙ rw (trim_value (hex_lower fp) t, reads.reads_hex 32 fp h) refl

  parse_line-disc_hash :
      (hash : Chars) (p : Parsed)
      → IsDiscHash hash
      → parse_line lib (chars "# freemkv-disc: " ++ hash) p
        ≡ ok (record p { disc_hash = some hash })
  unfolding comment_line strip_prefix
  parse_line-disc_hash hash p (bytes, h, eq) =
      let t = hex_lower-is_tight 20 bytes h (omega arith) in
      rw eq (
        parse_line-comment lib b'f' (chars "reemkv-disc: " ++ hex_lower bytes) p (
          comment-is_tight b'f' (chars "reemkv-disc: ") (hex_lower bytes)
            (unfold is_whitespace in refl) t)
        ∙ rw (trim_value (hex_lower bytes) t, parse_disc_hash-hex_lower bytes h) refl)

  parse_line-keyfp :
      (fp : List ℕ) (p : Parsed)
      → IsBytes 8 fp
      → parse_line lib (chars "# freemkv-legacy-keyfp: " ++ hex_lower fp) p
        ≡ ok (record p { legacy_keyfps = p.legacy_keyfps ++ fp ∷ [] })
  unfolding comment_line strip_prefix
  parse_line-keyfp fp p h =
      let t = hex_lower-is_tight 8 fp h (omega arith) in
      parse_line-comment lib b'f' (chars "reemkv-legacy-keyfp: " ++ hex_lower fp) p (
        comment-is_tight b'f' (chars "reemkv-legacy-keyfp: ") (hex_lower fp)
          (unfold is_whitespace in refl) t)
      ∙ rw (trim_value (hex_lower fp) t, reads.reads_hex 8 fp h) refl

  pub parse_lines-keyfps :
      (fps : List (List ℕ)) (p : Parsed)
      → All (IsBytes 8) fps
      → parse_lines lib (keyfp_lines fps) p
        ≡ ok (record p { legacy_keyfps = p.legacy_keyfps ++ fps })
  unfolding parse_lines keyfp_lines
  parse_lines-keyfps [] p h =
      ap (λ t. ok (record p { legacy_keyfps = t })) (sym (append-nil p.legacy_keyfps))
  parse_lines-keyfps (fp ∷ fps) p h = rw (parse_line-keyfp fp p h.0) (
      parse_lines-keyfps fps (record p { legacy_keyfps = p.legacy_keyfps ++ fp ∷ [] }) h.1
      ∙ ap (λ t. ok (record p { legacy_keyfps = t })) (append_assoc p.legacy_keyfps (fp ∷ []) fps))

  -- An optional header that is not there leaves its field unset.
  pub parse_lines-disc_hash :
      (o : Option Chars) (p : Parsed)
      → p.disc_hash ≡ none
      → Optional IsDiscHash o
      → parse_lines lib (header_line "# freemkv-disc: " (λ h. h) o) p
        ≡ ok (record p { disc_hash = o })
  unfolding parse_lines
  parse_lines-disc_hash none p unset h = ap (λ t. ok (record p { disc_hash = t })) unset
  parse_lines-disc_hash (some hash) p unset h = rw (parse_line-disc_hash hash p h) refl

  pub parse_lines-vidfp :
      (o : Option (List ℕ)) (p : Parsed)
      → p.vidfp ≡ none
      → Optional (IsBytes 32) o
      → parse_lines lib (header_line "# freemkv-vidfp: " hex_lower o) p
        ≡ ok (record p { vidfp = o })
  unfolding parse_lines
  parse_lines-vidfp none p unset h = ap (λ t. ok (record p { vidfp = t })) unset
  parse_lines-vidfp (some fp) p unset h = rw (parse_line-vidfp fp p h) refl

module _ (lib : Library) where
  pub parse_line-version :
      (version : Chars) (p : Parsed)
      → ends_solid version ≡ true
      → parse_line lib (chars "# Rescue Logfile. Created by " ++ version) p
        ≡ ok (record p { version = version })
  unfolding comment_line strip_prefix
  parse_line-version version p h =
      parse_line-comment lib b'R' (chars "escue Logfile. Created by " ++ version) p (
        rw (ends_solid-append (chars "Rescue Logfile. Created by ") version h)
          (unfold is_whitespace in refl))

  parse_line-raw :
      (flag : Bool) (p : Parsed)
      → parse_line lib (chars "# freemkv-raw: " ++ raw_text flag) p
        ≡ ok (record p { raw = some flag })
  unfolding parse_line comment_line strip_prefix trim trim_start trim_end is_whitespace
  parse_line-raw true p = refl
  parse_line-raw false p = refl

  pub parse_lines-raw :
      (o : Option Bool) (p : Parsed)
      → p.raw ≡ none
      → parse_lines lib (header_line "# freemkv-raw: " raw_text o) p ≡ ok (record p { raw = o })
  unfolding parse_lines
  parse_lines-raw none p unset = ap (λ t. ok (record p { raw = t })) unset
  parse_lines-raw (some flag) p unset = rw (parse_line-raw flag p) refl

  -- The lines before the entries.
  pub parse_lines-current :
      (ls : List Chars) (p : Parsed)
      → p.saw_current_line ≡ false
      → parse_lines lib
          (chars "# Current pos / status / pass / pass_time"
            ∷ chars "0x000000000  ?  1  0"
            ∷ chars "#      pos        size  status"
            ∷ ls)
          p
        ≡ parse_lines lib ls (record p { saw_current_line = true })
  unfolding parse_lines parse_line comment_line data_line is_current_line split_whitespace from_char
      strip_prefix trim trim_start trim_end is_whitespace
  parse_lines-current ls p unseen = rw unseen refl
