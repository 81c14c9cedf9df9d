-- ===== src/Mapfile/Load/Lines.antt =====
-- How `load` of src/recovery/mapfile.rs takes one line of the file.
use freemkv_engine.Base.{
  ℕ, ◌-◌, ◌≡◌, refl, ap, sym, ◌∙◌, true, false, ◌&&◌, some, List, [], ◌∷◌, ◌++◌, arith, ◌==◌, All,
  length, append_assoc, append-nil,
}
use freemkv_engine.Text.{Chars, chars, is_whitespace, strip_prefix, split_whitespace}
use freemkv_engine.Text.Trim.{
  is_solid, is_tight, ends_solid, trim_tight, trim_space, ends_solid-append, hex_lower-solid,
  IsHexText,
}
use freemkv_engine.Text.Words.{IsWord, split_whitespace-word}
use freemkv_engine.Mapfile.Status.{SectorStatus, to_char, from_char}
use freemkv_engine.Mapfile.Entry.{MapEntry}
use freemkv_engine.Mapfile.Runs.{IsSized}
use freemkv_engine.Mapfile.State.{ok, err}
use freemkv_engine.Mapfile.Render.{hex_field, to_hex, zeros, entry_line, entry_lines}
use freemkv_engine.Mapfile.Load.{
  Library, Parsed, ◌>>=◌, comment_line, data_line, parse_entry, parse_line, parse_lines,
  sized_entry,
}
use freemkv_engine.Mapfile.Load.Numbers.{parse_hex-hex_field, IsHexText-to_hex, IsHexText-zeros}

module _ (lib : Library) where
  pub parse_lines-append :
      (ls ms : List Chars) (p : Parsed)
      → parse_lines lib (ls ++ ms) p ≡ (parse_lines lib ls p >>= parse_lines lib ms)
  unfolding parse_lines
  parse_lines-append [] ms p = refl
  parse_lines-append (l ∷ ls) ms p =
      elim (parse_line lib l p)
        as (λ r.
          (r >>= parse_lines lib (ls ++ ms)) ≡ (r >>= parse_lines lib ls >>= parse_lines lib ms)) [
            | ok q ↦ parse_lines-append ls ms q
            | err e ↦ refl
          ]

  -- A tight line that is no comment.
  parse_line-data :
      (c : ℕ) (cs : Chars) (p : Parsed)
      → is_tight (c ∷ cs) ≡ true
      → (35 == c) ≡ false
      → parse_line lib (c ∷ cs) p ≡ data_line (c ∷ cs) p
  unfolding parse_line strip_prefix
  parse_line-data c cs p t h = rw (trim_tight (c ∷ cs) t, h, trim_tight (c ∷ cs) t) refl

  -- A comment with a tight text after `# `.
  pub parse_line-comment :
      (c : ℕ) (cs : Chars) (p : Parsed)
      → is_tight (c ∷ cs) ≡ true
      → parse_line lib (35 ∷ 32 ∷ c ∷ cs) p ≡ comment_line lib (c ∷ cs) p
  unfolding parse_line strip_prefix is_whitespace
  parse_line-comment c cs p t =
      rw
        (
          trim_tight (35 ∷ 32 ∷ c ∷ cs) (ground arith),
          trim_space 32 (c ∷ cs) refl,
          trim_tight (c ∷ cs) t,
        )
        refl

  hex_field-cons : (n : ℕ) → (cs : Chars) × (hex_field n ≡ b'0' ∷ b'x' ∷ cs) × IsHexText cs
  unfolding hex_field
  hex_field-cons n = (
    zeros (9 - length (to_hex n)) (to_hex n),
    refl,
    IsHexText-zeros (9 - length (to_hex n)) (to_hex n) (IsHexText-to_hex n),
  )

IsHexText-IsWord : (cs : Chars) → IsHexText cs → IsWord cs
IsHexText-IsWord [] h = tt
IsHexText-IsWord (c ∷ cs) h = (hex_lower-solid c h.0, IsHexText-IsWord cs h.1)

hex_field-split :
    (n space : ℕ) (more : Chars)
    → is_whitespace space ≡ true
    → split_whitespace (hex_field n ++ space ∷ more) ≡ hex_field n ∷ split_whitespace more
unfolding hex_field
hex_field-split n space more h =
    split_whitespace-word b'0' (b'x' ∷ zeros (9 - length (to_hex n)) (to_hex n)) space more
      (
        unfold is_whitespace in refl,
        (
          unfold is_whitespace in refl,
          IsHexText-IsWord (zeros (9 - length (to_hex n)) (to_hex n))
              (IsHexText-zeros (9 - length (to_hex n)) (to_hex n) (IsHexText-to_hex n)),
        ),
      )
      h

split_space : (cs : Chars) → split_whitespace (32 ∷ cs) ≡ split_whitespace cs
unfolding split_whitespace is_whitespace
split_space cs = refl

split_status : (s : SectorStatus) → split_whitespace (to_char s ∷ []) ≡ (to_char s ∷ []) ∷ []
unfolding split_whitespace is_whitespace to_char
split_status s = ground arith

-- The three fields of an entry's line.
split_whitespace-entry_line :
    (e : MapEntry)
    → split_whitespace (entry_line e)
      ≡ hex_field e.pos ∷ hex_field e.size ∷ (to_char e.status ∷ []) ∷ []
unfolding entry_line
split_whitespace-entry_line e =
    hex_field-split e.pos 32 (32 ∷ hex_field e.size ++ (chars "    " ++ (to_char e.status ∷ [])))
      (unfold is_whitespace in refl)
    ∙ ap (λ t. hex_field e.pos ∷ t)
        (split_space (hex_field e.size ++ (chars "    " ++ (to_char e.status ∷ [])))
          ∙ hex_field-split e.size 32 (chars "   " ++ (to_char e.status ∷ []))
              (unfold is_whitespace in refl)
          ∙ ap (λ t. hex_field e.size ∷ t)
              (split_space (chars "  " ++ (to_char e.status ∷ []))
                ∙ split_space (chars " " ++ (to_char e.status ∷ []))
                ∙ split_space (to_char e.status ∷ [])
                ∙ split_status e.status))

from_char-to_char : (s : SectorStatus) → from_char (to_char s) ≡ some s
unfolding from_char to_char
from_char-to_char s = ground arith

sized_entry-to_char :
    (e : MapEntry) → IsSized e → sized_entry e.pos e.size (to_char e.status ∷ []) ≡ ok e
sized_entry-to_char e s = ground (arith, from_char-to_char e.status)

-- The fields of an entry's line are parsed as the entry.
parse_entry-fields :
    (e : MapEntry)
    → IsSized e
    → parse_entry (hex_field e.pos ∷ hex_field e.size ∷ (to_char e.status ∷ []) ∷ []) ≡ ok e
unfolding parse_entry
parse_entry-fields e s =
    rw
      (
        parse_hex-hex_field e.pos (omega arith),
        parse_hex-hex_field e.size (omega arith),
        sized_entry-to_char e s,
      )
      refl

to_char-solid : (s : SectorStatus) → is_solid (to_char s) ≡ true
unfolding to_char is_whitespace
to_char-solid s = ground arith

entry_line-ends_solid : (e : MapEntry) → ends_solid (entry_line e) ≡ true
unfolding entry_line
entry_line-ends_solid e = ends_solid-append (hex_field e.pos) _ (
    ends_solid-append (chars "  ") (hex_field e.size ++ (chars "    " ++ (to_char e.status ∷ []))) (
      ends_solid-append (hex_field e.size) (chars "    " ++ (to_char e.status ∷ []))
        (ends_solid-append (chars "    ") (to_char e.status ∷ []) (to_char-solid e.status))))

entry_line-cons : (e : MapEntry) → (cs : Chars) × (entry_line e ≡ b'0' ∷ cs)
unfolding entry_line hex_field
entry_line-cons e = (_, refl)

entry_line-is_tight :
    (e : MapEntry) (cs : Chars) → entry_line e ≡ b'0' ∷ cs → is_tight (b'0' ∷ cs) ≡ true
entry_line-is_tight e cs eq =
    ap (λ b. is_solid b'0' && b) (ap ends_solid (sym eq) ∙ entry_line-ends_solid e)
    ∙ unfold is_whitespace in refl

data_line-entry_line :
    (e : MapEntry) (p : Parsed)
    → IsSized e
    → p.saw_current_line ≡ true
    → data_line (entry_line e) p ≡ ok (record p { entries = p.entries ++ e ∷ [] })
unfolding data_line
data_line-entry_line e p s seen =
    rw (split_whitespace-entry_line e, seen, parse_entry-fields e s) refl

module _ (lib : Library) where
  entry_line-data :
      (e : MapEntry) (p : Parsed) → parse_line lib (entry_line e) p ≡ data_line (entry_line e) p
  entry_line-data e p =
      let (cs, eq) = entry_line-cons e in
      rw eq (parse_line-data lib b'0' cs p (entry_line-is_tight e cs eq) refl)

  -- The line of an entry adds the entry, once the current line is past.
  parse_line-entry_line :
      (e : MapEntry) (p : Parsed)
      → IsSized e
      → p.saw_current_line ≡ true
      → parse_line lib (entry_line e) p ≡ ok (record p { entries = p.entries ++ e ∷ [] })
  parse_line-entry_line e p s seen = entry_line-data e p ∙ data_line-entry_line e p s seen

  pub parse_lines-entry_lines :
      (es : List MapEntry) (p : Parsed)
      → All IsSized es
      → p.saw_current_line ≡ true
      → parse_lines lib (entry_lines es) p ≡ ok (record p { entries = p.entries ++ es })
  unfolding parse_lines entry_lines
  parse_lines-entry_lines [] p s seen =
      ap (λ t. ok (record p { entries = t })) (sym (append-nil p.entries))
  parse_lines-entry_lines (e ∷ es) p s seen = rw (parse_line-entry_line e p s.0 seen) (
      parse_lines-entry_lines es (record p { entries = p.entries ++ e ∷ [] }) s.1 seen
      ∙ ap (λ t. ok (record p { entries = t })) (append_assoc p.entries (e ∷ []) es))
