-- ===== src/Mapfile/Load/RoundTrip.antt =====
-- `load` of src/recovery/mapfile.rs reads back what `write_locked` writes.
use freemkv_engine.Base.{
  ℕ, ◌≤◌, ◌≡◌, refl, ap, ge→ltb, ◌∙◌, true, false, Option, none, some, List, ◌∷◌, ◌++◌,
}
use freemkv_engine.Text.{Chars}
use freemkv_engine.Mapfile.Splice.Window.{IsRuns-IsSorted, IsSorted-IsSized}
use freemkv_engine.Mapfile.Fill.Loaded.{fill_entries_gapless}
use freemkv_engine.Mapfile.State.{Mapfile, ok}
use freemkv_engine.Mapfile.Render.{
  hex_lower, entry_lines, keyfp_lines, header_line, scope_list, raw_text, render_lines, render,
}
use freemkv_engine.Mapfile.Load.{
  Library, Parsed, unparsed, parse_line, parse_lines, loaded_map, load_text, or_else, load,
  read_capped, utf8_length,
}
use freemkv_engine.Mapfile.Load.Lines.{parse_lines-append, parse_lines-entry_lines}
use freemkv_engine.Mapfile.Load.Headers.{
  ReadsHex, parse_line-version, parse_lines-disc_hash, parse_lines-vidfp, parse_lines-keyfps,
  parse_lines-raw, parse_lines-current,
}
use freemkv_engine.Mapfile.Load.Scope.{parse_lines-scope}
use freemkv_engine.Mapfile.Load.Written.{IsWritable, lines-unlines, render_lines-IsLine}

-- The lines of the file, parsed.
abbrev parsed : Mapfile → Parsed
parsed m = record {
  entries = m.entries;
  saw_current_line = true;
  version = m.version;
  disc_hash = m.disc_hash;
  vidfp = m.vidfp;
  legacy_vidfp = none;
  legacy_keyfps = m.legacy_keyfps;
  scope = m.scope;
  raw = m.raw;
}

or_else-none {ℓ} : {A : Type ℓ} (o : Option A) → or_else o none ≡ o
or_else-none none = refl
or_else-none (some a) = refl

loaded_map-parsed :
    (now : ℕ) (m : Mapfile)
    → IsWritable m
    → loaded_map now (parsed m) m.entries
      ≡ record m { dirty = false; last_flushed = now; disowned = false }
unfolding loaded_map
loaded_map-parsed now m w = rw (or_else-none m.vidfp, ← w.total, ← w.counted) refl

module _ (lib : Library) where
  parse_lines_first :
      (l : Chars) (ls : List Chars) (p q : Parsed)
      → parse_line lib l p ≡ ok q
      → parse_lines lib (l ∷ ls) p ≡ parse_lines lib ls q
  unfolding parse_lines
  parse_lines_first l ls p q h = rw h refl

  parse_lines_then :
      (ls ms : List Chars) (p q : Parsed)
      → parse_lines lib ls p ≡ ok q
      → parse_lines lib (ls ++ ms) p ≡ parse_lines lib ms q
  parse_lines_then ls ms p q h = parse_lines-append lib ls ms p ∙ rw h refl

  -- The lines of the file are parsed as the fields of the mapfile.
  parse_lines-render_lines :
      ReadsHex lib
      → (m : Mapfile) → IsWritable m
      → parse_lines lib (render_lines m) unparsed ≡ ok (parsed m)
  unfolding render_lines
  parse_lines-render_lines reads m w =
      parse_lines_first _ _ unparsed versioned
        (parse_line-version lib m.version unparsed w.version_end)
      ∙ parse_lines_then (header_line "# freemkv-disc: " (λ h. h) m.disc_hash) _ versioned hashed
          (parse_lines-disc_hash lib reads m.disc_hash versioned refl w.hash)
      ∙ parse_lines_then (header_line "# freemkv-vidfp: " hex_lower m.vidfp) _ hashed printed
          (parse_lines-vidfp lib reads m.vidfp hashed refl w.fingerprint)
      ∙ parse_lines_then (keyfp_lines m.legacy_keyfps) _ printed keyed
          (parse_lines-keyfps lib reads m.legacy_keyfps printed w.keys)
      ∙ parse_lines_then (header_line "# freemkv-scope: " scope_list m.scope) _ keyed scoped
          (parse_lines-scope lib m.scope keyed refl w.scoped)
      ∙ parse_lines_then (header_line "# freemkv-raw: " raw_text m.raw) _ scoped flagged
          (parse_lines-raw lib m.raw scoped refl)
      ∙ parse_lines-current lib (entry_lines m.entries) flagged refl
      ∙ parse_lines-entry_lines lib m.entries (record flagged { saw_current_line = true })
          (IsSorted-IsSized 0 m.entries (IsRuns-IsSorted 0 m.entries w.runs)) refl
    where
      versioned : Parsed
      versioned = record unparsed { version = m.version }

      hashed : Parsed
      hashed = record versioned { disc_hash = m.disc_hash }

      printed : Parsed
      printed = record hashed { vidfp = m.vidfp }

      keyed : Parsed
      keyed = record printed { legacy_keyfps = m.legacy_keyfps }

      scoped : Parsed
      scoped = record keyed { scope = m.scope }

      flagged : Parsed
      flagged = record scoped { raw = m.raw }

  load_text-render :
      (now : ℕ) (m : Mapfile)
      → ReadsHex lib
      → IsWritable m
      → load_text lib now (render m)
        ≡ ok (record m { dirty = false; last_flushed = now; disowned = false })
  unfolding load_text render
  load_text-render now m reads w =
      rw
        (
          lines-unlines (render_lines m) (render_lines-IsLine m w),
          parse_lines-render_lines reads m w,
          fill_entries_gapless m.entries w.runs w.gapless,
        )
        (ap ok (loaded_map-parsed now m w))

  -- The file of a mapfile of the kind that the engine keeps, if it is within the size limit, loads as
  -- the same mapfile: clean, not disowned, with the time of the load.
  pub load-render :
      (now : ℕ) (m : Mapfile)
      → ReadsHex lib
      → IsWritable m
      → utf8_length (render m) ≤ 268435456
      → load lib now none (some (render m))
        ≡ ok (record m { dirty = false; last_flushed = now; disowned = false })
  unfolding load read_capped
  load-render now m reads w h =
      rw (ge→ltb 268435456 (utf8_length (render m)) h) (load_text-render now m reads w)
