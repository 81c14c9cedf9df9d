-- ===== src/Mapfile/Load/Scope.antt =====
-- How `load` of src/recovery/mapfile.rs takes the scope that `write_locked` writes.
use freemkv_engine.Base.{
  ℕ, ◌+◌, ◌≤◌, ◌≡◌, refl, ap, subst, ◌∙◌, true, false, Option, none, some, List, [], ◌∷◌, ◌++◌,
  arith, ◌==◌, All, u64_max,
}
use freemkv_engine.Text.{
  Chars, chars, trim, trim_start, trim_end, is_whitespace, strip_prefix, split,
}
use freemkv_engine.Text.Trim.{
  is_tight, ends_solid, trim_tight, ends_solid-append, IsHexText, is_hex_lower,
  IsHexText-ends_solid,
}
use freemkv_engine.Text.Words.{IsFree, split_free, split-piece, split_once-piece, IsFree-append}
use freemkv_engine.Ranges.{ByteRange, merge_byte_ranges, sort_ranges, merge_loop}
use freemkv_engine.Ranges.Cut.{Bounded}
use freemkv_engine.Ranges.Merge.{IsMerged}
use freemkv_engine.Ranges.Fixed.{merge_byte_ranges-merged}
use freemkv_engine.Mapfile.State.{ok}
use freemkv_engine.Mapfile.Render.{to_hex, range_text, scope_list, header_line}
use freemkv_engine.Mapfile.Load.{
  Library, Parsed, comment_line, parse_line, parse_lines, parse_range, parse_ranges, parse_scope,
}
use freemkv_engine.Mapfile.Load.Numbers.{IsHexText-to_hex, to_hex-cons, parse_hex-to_hex}
use freemkv_engine.Mapfile.Load.Lines.{parse_line-comment}
use freemkv_engine.Mapfile.Load.Headers.{Optional, comment-is_tight, trim_value}

hex_not : (c : ℕ) → is_hex_lower c ≡ true → ((c == 44) ≡ false) × ((c == 43) ≡ false)
hex_not c h = ground arith

IsHexText-IsFree : (cs : Chars) → IsHexText cs → IsFree 44 cs × IsFree 43 cs
IsHexText-IsFree [] h = (tt, tt)
IsHexText-IsFree (c ∷ cs) h =
    let free = IsHexText-IsFree cs h.1 in let no = hex_not c h.0 in ((no.0, free.0), (no.1, free.1))

to_hex-ends_solid : (n : ℕ) → ends_solid (to_hex n) ≡ true
to_hex-ends_solid n =
    let (d, ds, eq) = to_hex-cons n in
    rw eq (IsHexText-ends_solid d ds (subst IsHexText eq (IsHexText-to_hex n)))

hex_number-ends_solid : (n : ℕ) → ends_solid (b'0' ∷ b'x' ∷ to_hex n) ≡ true
hex_number-ends_solid n = ends_solid-append (chars "0x") (to_hex n) (to_hex-ends_solid n)

hex_number-is_tight : (n : ℕ) → is_tight (b'0' ∷ b'x' ∷ to_hex n) ≡ true
hex_number-is_tight n = rw (hex_number-ends_solid n) (unfold is_whitespace in refl)

range_text-ends_solid : (p n : ℕ) → ends_solid (range_text p n) ≡ true
range_text-ends_solid p n =
    ends_solid-append (b'0' ∷ b'x' ∷ to_hex p) (b'+' ∷ b'0' ∷ b'x' ∷ to_hex n)
      (hex_number-ends_solid n)

range_text-is_tight : (p n : ℕ) → is_tight (range_text p n) ≡ true
range_text-is_tight p n = rw (range_text-ends_solid p n) (unfold is_whitespace in refl)

range_text-IsFree : (p n : ℕ) → IsFree b',' (range_text p n)
range_text-IsFree p n = (
  refl,
  (
    refl,
    IsFree-append b',' (to_hex p) (b'+' ∷ b'0' ∷ b'x' ∷ to_hex n)
        (IsHexText-IsFree (to_hex p) (IsHexText-to_hex p)).0
        (refl, (refl, (refl, (IsHexText-IsFree (to_hex n) (IsHexText-to_hex n)).0))),
  ),
)

-- The text of a range is parsed as the range.
parse_range-range_text : (p n : ℕ) → p + n ≤ u64_max → parse_range (range_text p n) ≡ some (p, n)
parse_range-range_text p n h =
    rw
      (
        split_once-piece b'+' (b'0' ∷ b'x' ∷ to_hex p) (b'0' ∷ b'x' ∷ to_hex n)
            (refl, (refl, (IsHexText-IsFree (to_hex p) (IsHexText-to_hex p)).1)),
        trim_tight (b'0' ∷ b'x' ∷ to_hex p) (hex_number-is_tight p),
        parse_hex-to_hex p (omega arith),
        trim_tight (b'0' ∷ b'x' ∷ to_hex n) (hex_number-is_tight n),
        parse_hex-to_hex n (omega arith),
        parse_range,
      )
      (ground arith)

parse_ranges-cons :
    (p n : ℕ) (pieces : List Chars) (rs : List ByteRange)
    → p + n ≤ u64_max
    → parse_ranges pieces ≡ some rs
    → parse_ranges (range_text p n ∷ pieces) ≡ some ((p, n) ∷ rs)
unfolding parse_ranges
parse_ranges-cons p n pieces rs h e =
    rw (trim_tight (range_text p n) (range_text-is_tight p n), parse_range-range_text p n h, e) refl

parse_ranges-scope_list :
    (r : ByteRange) (rs : List ByteRange)
    → All Bounded (r ∷ rs)
    → parse_ranges (split b',' (scope_list (r ∷ rs))) ≡ some (r ∷ rs)
unfolding scope_list
parse_ranges-scope_list (p, n) [] h =
    rw (split_free b',' (range_text p n) (range_text-IsFree p n))
      (parse_ranges-cons p n [] [] h.0 (unfold parse_ranges in refl))
parse_ranges-scope_list (p, n) (s ∷ rs) h =
    rw (split-piece b',' (range_text p n) (scope_list (s ∷ rs)) (range_text-IsFree p n)) (
      parse_ranges-cons p n (split b',' (scope_list (s ∷ rs))) (s ∷ rs) h.0
        (parse_ranges-scope_list s rs h.1))

IsMerged-Bounded : (lo : ℕ) (rs : List ByteRange) → IsMerged lo rs → All Bounded rs
IsMerged-Bounded lo [] m = tt
IsMerged-Bounded lo ((p, n) ∷ rs) m = (m.2, IsMerged-Bounded (p + n + 1) rs m.3)

parse_scope-scope_list :
    (r : ByteRange) (rs : List ByteRange)
    → IsMerged 0 (r ∷ rs)
    → parse_scope (scope_list (r ∷ rs)) ≡ some (r ∷ rs)
unfolding parse_scope
parse_scope-scope_list r rs m =
    rw
      (
        parse_ranges-scope_list r rs (IsMerged-Bounded 0 (r ∷ rs) m),
        merge_byte_ranges-merged (r ∷ rs) m,
        parse_scope,
      )
      refl

scope_list-ends_solid :
    (r : ByteRange) (rs : List ByteRange) → ends_solid (scope_list (r ∷ rs)) ≡ true
unfolding scope_list
scope_list-ends_solid (p, n) [] = range_text-ends_solid p n
scope_list-ends_solid (p, n) (s ∷ rs) =
    ends_solid-append (range_text p n) (b',' ∷ scope_list (s ∷ rs))
      (ends_solid-append (b',' ∷ []) (scope_list (s ∷ rs)) (scope_list-ends_solid s rs))

scope_list-is_tight : (r : ByteRange) (rs : List ByteRange) → is_tight (scope_list (r ∷ rs)) ≡ true
unfolding scope_list
scope_list-is_tight (p, n) [] = range_text-is_tight p n
scope_list-is_tight (p, n) (s ∷ rs) =
    rw (scope_list-ends_solid (p, n) (s ∷ rs)) (unfold is_whitespace in refl)

module _ (lib : Library) where
  parse_line-scope :
      (rs : List ByteRange) (p : Parsed)
      → IsMerged 0 rs
      → parse_line lib (chars "# freemkv-scope: " ++ scope_list rs) p
        ≡ ok (record p { scope = some rs })
  unfolding comment_line strip_prefix
  parse_line-scope [] p m =
      unfold parse_line scope_list parse_scope parse_ranges split trim trim_start trim_end
        is_whitespace merge_byte_ranges sort_ranges merge_loop in
      refl
  parse_line-scope (r ∷ rs) p m =
      parse_line-comment lib b'f' (chars "reemkv-scope: " ++ scope_list (r ∷ rs)) p (
        comment-is_tight b'f' (chars "reemkv-scope: ") (scope_list (r ∷ rs))
          (unfold is_whitespace in refl) (scope_list-is_tight r rs))
      ∙ rw
          (
            trim_value (scope_list (r ∷ rs)) (scope_list-is_tight r rs),
            parse_scope-scope_list r rs m,
          )
          refl

  pub parse_lines-scope :
      (o : Option (List ByteRange)) (p : Parsed)
      → p.scope ≡ none
      → Optional (IsMerged 0) o
      → parse_lines lib (header_line "# freemkv-scope: " scope_list o) p
        ≡ ok (record p { scope = o })
  unfolding parse_lines
  parse_lines-scope none p unset h = ap (λ t. ok (record p { scope = t })) unset
  parse_lines-scope (some rs) p unset h = rw (parse_line-scope rs p h) refl
