-- ===== src/Mapfile/Load/Written.antt =====
-- The lines that `write_locked` of src/recovery/mapfile.rs writes for a mapfile that the engine keeps.
use Prim.Native.String.{String}
use freemkv_engine.Base.{
  ℕ, ◌≡◌, refl, ap, subst, ◌∙◌, Bool, true, false, Option, none, some, List, [], ◌∷◌, ◌++◌, arith,
  All, ◌-◌, length,
}
use freemkv_engine.Text.{Chars, chars, lines}
use freemkv_engine.Text.Trim.{ends_solid, IsHexText, is_hex_lower}
use freemkv_engine.Text.Words.{is_inline, IsLine, lines-line, IsLine-append}
use freemkv_engine.Ranges.{ByteRange}
use freemkv_engine.Ranges.Merge.{IsMerged}
use freemkv_engine.Mapfile.Status.{SectorStatus, to_char}
use freemkv_engine.Mapfile.Entry.{MapEntry}
use freemkv_engine.Mapfile.Runs.{IsRuns}
use freemkv_engine.Mapfile.Fill.{map_end}
use freemkv_engine.Mapfile.Fill.Gaps.{IsGapless}
use freemkv_engine.Mapfile.State.{Mapfile}
use freemkv_engine.Mapfile.Render.{
  hex_lower, hex_field, to_hex, zeros, entry_line, entry_lines, keyfp_lines, header_line,
  scope_list, range_text, raw_text, render_lines, unlines,
}
use freemkv_engine.Mapfile.Load.Numbers.{IsHexText-hex_lower, IsHexText-to_hex, IsHexText-zeros}
use freemkv_engine.Mapfile.Load.Headers.{IsBytes, IsDiscHash, Optional}
use freemkv_engine.Mapfile.Record.{IsCounted}

-- A mapfile of the kind that the engine keeps: gapless maximal runs that are counted, a version of
-- one line that does not end with white space, identities of their sizes and a merged scope.
pub record IsWritable (m : Mapfile) : Type 0 where
  pub runs : IsRuns 0 m.entries
  pub gapless : IsGapless 0 m.entries
  pub total : m.total_size ≡ map_end m.entries
  pub counted : IsCounted m
  pub version_end : ends_solid m.version ≡ true
  pub version_line : IsLine m.version
  pub hash : Optional IsDiscHash m.disc_hash
  pub fingerprint : Optional (IsBytes 32) m.vidfp
  pub keys : All (IsBytes 8) m.legacy_keyfps
  pub scoped : Optional (IsMerged 0) m.scope

pub lines-unlines : (ls : List Chars) → All IsLine ls → lines (unlines ls) ≡ ls
unfolding unlines
lines-unlines [] h = unfold lines in refl
lines-unlines (l ∷ ls) h = lines-line l (unlines ls) h.0 ∙ ap (λ t. l ∷ t) (lines-unlines ls h.1)

IsHexText-IsLine : (cs : Chars) → IsHexText cs → IsLine cs
IsHexText-IsLine [] h = refl
IsHexText-IsLine (c ∷ cs) h = rw (inline c h.0) (IsHexText-IsLine cs h.1)
  where
    inline : (c : ℕ) → is_hex_lower c ≡ true → is_inline c ≡ true
    inline c h = ground arith

hex_lower-IsLine : (n : ℕ) (bytes : List ℕ) → IsBytes n bytes → IsLine (hex_lower bytes)
hex_lower-IsLine n bytes h = IsHexText-IsLine (hex_lower bytes) (IsHexText-hex_lower bytes h.1)

disc_hash-IsLine : (hash : Chars) → IsDiscHash hash → IsLine hash
disc_hash-IsLine hash (bytes, h, eq) = rw eq (hex_lower-IsLine 20 bytes h)

raw_text-IsLine : (flag : Bool) → IsLine (raw_text flag)
raw_text-IsLine true = refl
raw_text-IsLine false = refl

range_text-IsLine : (p n : ℕ) → IsLine (range_text p n)
range_text-IsLine p n =
    IsLine-append (to_hex p) (b'+' ∷ b'0' ∷ b'x' ∷ to_hex n)
      (IsHexText-IsLine (to_hex p) (IsHexText-to_hex p))
      (IsHexText-IsLine (to_hex n) (IsHexText-to_hex n))

scope_list-IsLine : (rs : List ByteRange) → IsLine (scope_list rs)
unfolding scope_list
scope_list-IsLine [] = refl
scope_list-IsLine ((p, n) ∷ []) = range_text-IsLine p n
scope_list-IsLine ((p, n) ∷ r ∷ rs) =
    IsLine-append (range_text p n) (b',' ∷ scope_list (r ∷ rs)) (range_text-IsLine p n)
      (scope_list-IsLine (r ∷ rs))

hex_field-IsLine : (n : ℕ) → IsLine (hex_field n)
unfolding hex_field
hex_field-IsLine n =
    let digits = zeros (9 - length (to_hex n)) (to_hex n) in
    IsHexText-IsLine digits
      (IsHexText-zeros (9 - length (to_hex n)) (to_hex n) (IsHexText-to_hex n))

to_char-IsLine : (s : SectorStatus) → IsLine (to_char s ∷ [])
unfolding to_char
to_char-IsLine s = ground arith

entry_line-IsLine : (e : MapEntry) → IsLine (entry_line e)
unfolding entry_line
entry_line-IsLine e =
    IsLine-append (hex_field e.pos)
      (chars "  " ++ (hex_field e.size ++ (chars "    " ++ (to_char e.status ∷ []))))
      (hex_field-IsLine e.pos)
      (IsLine-append (hex_field e.size) (chars "    " ++ (to_char e.status ∷ []))
        (hex_field-IsLine e.size) (to_char-IsLine e.status))

entry_lines-IsLine : (es : List MapEntry) → All IsLine (entry_lines es)
unfolding entry_lines
entry_lines-IsLine [] = tt
entry_lines-IsLine (e ∷ es) = (entry_line-IsLine e, entry_lines-IsLine es)

keyfp_lines-IsLine : (fps : List (List ℕ)) → All (IsBytes 8) fps → All IsLine (keyfp_lines fps)
unfolding keyfp_lines
keyfp_lines-IsLine [] h = tt
keyfp_lines-IsLine (fp ∷ fps) h = (hex_lower-IsLine 8 fp h.0, keyfp_lines-IsLine fps h.1)

All-append : (ls ms : List Chars) → All IsLine ls → All IsLine ms → All IsLine (ls ++ ms)
All-append [] ms h i = i
All-append (l ∷ ls) ms h i = (h.0, All-append ls ms h.1 i)

-- An optional header is one line, or none.
header_line-IsLine {ℓ} :
    {A : Type ℓ} (prefix : String) (show : A → Chars) (o : Option A)
    → IsLine (chars prefix)
    → ((a : A) → o ≡ some a → IsLine (show a))
    → All IsLine (header_line prefix show o)
header_line-IsLine prefix show none h i = tt
header_line-IsLine prefix show (some a) h i =
    (IsLine-append (chars prefix) (show a) h (i a refl), tt)

pub render_lines-IsLine : (m : Mapfile) → IsWritable m → All IsLine (render_lines m)
unfolding render_lines
render_lines-IsLine m w = (
  w.version_line,
  All-append _ _
      (header_line-IsLine "# freemkv-disc: " (λ h. h) m.disc_hash refl
        (λ hash e. disc_hash-IsLine hash (subst (Optional IsDiscHash) e w.hash)))
      (All-append _ _
        (header_line-IsLine "# freemkv-vidfp: " hex_lower m.vidfp refl
          (λ fp e. hex_lower-IsLine 32 fp (subst (Optional (IsBytes 32)) e w.fingerprint)))
        (All-append _ _ (keyfp_lines-IsLine m.legacy_keyfps w.keys) (
          All-append _ _
            (header_line-IsLine "# freemkv-scope: " scope_list m.scope refl
              (λ rs _. scope_list-IsLine rs))
            (All-append _ _
              (header_line-IsLine "# freemkv-raw: " raw_text m.raw refl
                (λ flag _. raw_text-IsLine flag))
              (refl, (refl, (refl, entry_lines-IsLine m.entries))))))),
)
