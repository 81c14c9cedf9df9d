-- ===== src/Mapfile/Load.antt =====
-- `Mapfile::load`, `open_or_create` and `load_if_present` of src/recovery/mapfile.rs, with the
-- parsers of its lines.
mod Values
unfoldable pub use Values.*
pub mod Lines
pub mod Numbers
pub mod Headers
pub mod Scope
pub mod Written
pub mod RoundTrip
pub mod Open
use Prim.Native.String.{String}
use freemkv_engine.Base.{
  ℕ, ◌+◌, Bool, true, false, not, ◌&&◌, ◌||◌, Option, none, some, List, [], ◌∷◌, ◌++◌, ltb, ◌==◌,
  if◌then◌else◌, length, nats_eq, checked_add, u64_max, u32_max, take,
}
use freemkv_engine.Text.{
  Chars, chars, is_empty, trim, lines, split_whitespace, split, split_once, strip_prefix,
  from_str_radix,
}
use freemkv_engine.Ranges.{ByteRange, merge_byte_ranges}
use freemkv_engine.Mapfile.Status.{SectorStatus, from_char}
use freemkv_engine.Mapfile.Entry.{MapEntry, compute_stats}
use freemkv_engine.Mapfile.Fill.{fill_entries, map_end}
use freemkv_engine.Mapfile.Render.{hex_lower}
use freemkv_engine.Mapfile.State.{
  Mapfile, Result, ok, err, Error, invalid, not_found, io, disc, vidfp, keyfp, vid, raw, scope,
  short_line, long_line, range, zero_size, status_char, hex, too_large,
}

module _ (lib : Library) where
  -- The comment headers of `load`, in its order: a header whose prefix the comment does not have
  -- leaves everything as it is.
  abbrev pub header : String → (Chars → Parsed → Result Parsed) → Chars → Parsed → Result Parsed
  header prefix use_value comment p = elim (strip_prefix (chars prefix) comment) [
    | none ↦ ok p
    | some value ↦ use_value value p
  ]

  abbrev pub version_value : Chars → Parsed → Result Parsed
  version_value v p = ok (record p { version = v })

  abbrev pub disc_value : Chars → Parsed → Result Parsed
  disc_value h p = ok_or (parse_disc_hash lib (trim h)) (invalid disc) >>= λ hash.
      ok (record p { disc_hash = some hash })

  abbrev pub vidfp_value : Chars → Parsed → Result Parsed
  vidfp_value h p = ok_or (lib.parse_hex_fixed 32 (trim h)) (invalid vidfp) >>= λ fp.
      ok (record p { vidfp = some fp })

  abbrev pub keyfp_value : Chars → Parsed → Result Parsed
  keyfp_value h p = ok_or (lib.parse_hex_fixed 8 (trim h)) (invalid keyfp) >>= λ fp.
      ok (record p { legacy_keyfps = p.legacy_keyfps ++ fp ∷ [] })

  abbrev pub vid_value : Chars → Parsed → Result Parsed
  vid_value h p = ok_or (lib.parse_hex_fixed 16 (trim h)) (invalid vid) >>= λ id.
      ok (record p { legacy_vidfp = some (vid_fingerprint lib id) })

  -- `parse_legacy_key_lines`.
  abbrev pub parse_legacy_key_lines : Chars → Parsed → Result Parsed
  parse_legacy_key_lines comment p = elim (strip_prefix (chars "freemkv-vid:") comment) [
    | some h ↦ vid_value h p
    | none ↦ header "freemkv-uk:" (λ s q. ok (uk_line lib s q)) comment p
  ]

  abbrev pub raw_flag : Chars → Result Bool
  raw_flag r = elim (single_char r) [
    | none ↦ err (invalid raw)
    | some c ↦ if c == b'1' then ok true else if c == b'0' then ok false else err (invalid raw)
  ]

  abbrev pub raw_value : Chars → Parsed → Result Parsed
  raw_value r p = raw_flag (trim r) >>= λ flag. ok (record p { raw = some flag })

  abbrev pub scope_value : Chars → Parsed → Result Parsed
  scope_value s p = ok_or (parse_scope (trim s)) (invalid scope) >>= λ ranges.
      ok (record p { scope = some ranges })

  unfoldable pub comment_line : Chars → Parsed → Result Parsed
  comment_line comment p =
      header "Rescue Logfile. Created by " version_value comment p
      >>= header "freemkv-disc:" disc_value comment
      >>= header "freemkv-vidfp:" vidfp_value comment
      >>= header "freemkv-legacy-keyfp:" keyfp_value comment
      >>= parse_legacy_key_lines comment
      >>= header "freemkv-raw:" raw_value comment
      >>= header "freemkv-scope:" scope_value comment

-- One data line, `pos size status`, from its fields.
abbrev pub sized_entry : ℕ → ℕ → Chars → Result MapEntry
sized_entry pos size field = elim (checked_add pos size) [
  | none ↦ err (invalid range)
  | some _ ↦
      if size == 0
      then err (invalid zero_size)
      else ok_or (field_status field) (invalid status_char) >>= λ status.
          ok (record { pos = pos; size = size; status = status })
]

unfoldable pub parse_entry : List Chars → Result MapEntry
parse_entry (a ∷ b ∷ c ∷ []) = parse_hex a >>= λ pos. parse_hex b >>= λ size. sized_entry pos size c
parse_entry (a ∷ b ∷ c ∷ d ∷ more) = err (invalid long_line)
parse_entry _ = err (invalid short_line)

abbrev pub data_fields : List Chars → Parsed → Result Parsed
data_fields fields p = parse_entry fields >>= λ e. ok (record p { entries = p.entries ++ e ∷ [] })

-- A line that is no comment: the first one may be the current line, which is skipped.
unfoldable pub data_line : Chars → Parsed → Result Parsed
data_line t p =
    let fields = split_whitespace t in
    let seen = record p { saw_current_line = true } in
    if not p.saw_current_line && is_current_line fields then ok seen else data_fields fields seen

-- The mapfile of the parsed lines, at time `now`.
abbrev pub or_else {ℓ} : {A : Type ℓ} → Option A → Option A → Option A
or_else none b = b
or_else (some a) b = some a

unfoldable pub loaded_map : ℕ → Parsed → List MapEntry → Mapfile
loaded_map now p entries = record {
  entries = entries;
  total_size = map_end entries;
  version = p.version;
  stats = compute_stats entries (map_end entries);
  dirty = false;
  last_flushed = now;
  disc_hash = p.disc_hash;
  vidfp = or_else p.vidfp p.legacy_vidfp;
  legacy_keyfps = p.legacy_keyfps;
  scope = p.scope;
  raw = p.raw;
  disowned = false;
}

module _ (lib : Library) where
  -- One turn of the loop over the lines.
  unfoldable pub parse_line : Chars → Parsed → Result Parsed
  parse_line line p =
      let t = trim line in
      if is_empty t then ok p else elim (strip_prefix (chars "#") t) [
        | some comment ↦ comment_line lib (trim comment) p
        | none ↦ data_line t p
      ]

  unfoldable pub parse_lines : List Chars → Parsed → Result Parsed
  parse_lines [] p = ok p
  parse_lines (l ∷ ls) p = parse_line l p >>= parse_lines ls

  -- `load` of a text.
  unfoldable pub load_text : ℕ → Chars → Result Mapfile
  load_text now text = parse_lines (lines text) unparsed >>= λ p.
      fill_entries p.entries >>= λ entries. ok (loaded_map now p entries)

-- The bytes of the UTF-8 form.
unfoldable pub utf8_length : Chars → ℕ
utf8_length [] = 0
utf8_length (c ∷ cs) =
    (if ltb c 128 then 1 else if ltb c 2048 then 2 else if ltb c 65536 then 3 else 4)
    + utf8_length cs

-- `read_capped`; `open_error` is an error of opening or reading a file that is there.
unfoldable pub read_capped : Option ℕ → Option Chars → Result Chars
read_capped open_error none = err not_found
read_capped (some e) (some text) = err (io e)
read_capped none (some text) =
    if ltb 268435456 (utf8_length text) then err (invalid too_large) else ok text

-- `load`.
unfoldable pub load : Library → ℕ → Option ℕ → Option Chars → Result Mapfile
load lib now open_error file = read_capped open_error file >>= load_text lib now
