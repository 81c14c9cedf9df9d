-- ===== src/Mapfile/Load/Values.antt =====
-- The parsers of the values in a mapfile (src/recovery/mapfile.rs): numbers, ranges, keys.
use freemkv_engine.Base.{
  ℕ, Bool, true, false, not, ◌||◌, Option, none, some, List, [], ◌∷◌, ◌++◌, ltb, ◌==◌,
  if◌then◌else◌, nats_eq, checked_add, u64_max, u32_max, take,
}
use freemkv_engine.Text.{
  Chars, chars, is_empty, trim, split, split_once, strip_prefix, from_str_radix,
}
use freemkv_engine.Ranges.{ByteRange, merge_byte_ranges}
use freemkv_engine.Mapfile.Status.{SectorStatus, from_char}
use freemkv_engine.Mapfile.Entry.{MapEntry}
use freemkv_engine.Mapfile.Render.{hex_lower}
use freemkv_engine.Mapfile.State.{Result, ok, err, Error, invalid, hex}

-- What the loader takes from outside the repository: `libfreemkv::hex::parse_hex_fixed` of a number
-- of bytes, and SHA-256 of a tag and bytes.
pub record Library : Type 0 where
  pub parse_hex_fixed : ℕ → Chars → Option (List ℕ)
  pub sha256 : Chars → List ℕ → List ℕ

infixl 12 ◌>>=◌
abbrev pub ◌>>=◌ {ℓ κ} : {A : Type ℓ} {B : Type κ} → Result A → (A → Result B) → Result B
ok a >>= f = f a
err e >>= f = err e

-- `ok_or_else(|| invalid(kind))`.
abbrev pub ok_or {ℓ} : {A : Type ℓ} → Option A → Error → Result A
ok_or none e = err e
ok_or (some a) e = ok a

-- `LegacyIdentity`, and the locals of `load` that the lines fill.
pub record Parsed : Type 0 where
  pub entries : List MapEntry
  pub saw_current_line : Bool
  pub version : Chars
  pub disc_hash : Option Chars
  pub vidfp : Option (List ℕ)
  pub legacy_vidfp : Option (List ℕ)
  pub legacy_keyfps : List (List ℕ)
  pub scope : Option (List ByteRange)
  pub raw : Option Bool

abbrev pub unparsed : Parsed
unparsed = record {
  entries = [];
  saw_current_line = false;
  version = chars "unknown";
  disc_hash = none;
  vidfp = none;
  legacy_vidfp = none;
  legacy_keyfps = [];
  scope = none;
  raw = none;
}

-- `parse_hex`.
unfoldable pub parse_hex : Chars → Result ℕ
parse_hex s = elim (strip_prefix (chars "0x") s) [
  | none ↦ ok_or (from_str_radix 16 u64_max s) (invalid hex)
  | some digits ↦ ok_or (from_str_radix 16 u64_max digits) (invalid hex)
]

-- `single_char`.
abbrev pub single_char : Chars → Option ℕ
single_char (c ∷ []) = some c
single_char _ = none

-- The status of a field that is one character of the block alphabet.
abbrev pub field_status : Chars → Option SectorStatus
field_status field = elim (single_char field) [ none ↦ none | some c ↦ from_char c ]

abbrev pub is_some {ℓ} : {A : Type ℓ} → Option A → Bool
is_some none = false
is_some (some _) = true

abbrev pub third_is_status : List Chars → Bool
third_is_status [] = false
third_is_status (field ∷ _) = is_some (field_status field)

-- `is_current_line`.
unfoldable pub is_current_line : List Chars → Bool
is_current_line (_ ∷ second ∷ later) = elim (single_char second) [
  | none ↦ false
  | some c ↦
      if c == b'G'
      then true
      else if c == b'F'
      then not (third_is_status later)
      else is_some (from_char c)
]
is_current_line _ = false

-- The loop of `parse_scope` over the trimmed pieces; an empty one is skipped.
abbrev pub parse_range : Chars → Option ByteRange
parse_range part = elim (split_once b'+' part) [
  | none ↦ none
  | some halves ↦ elim (parse_hex (trim halves.0)) [
    | err _ ↦ none
    | ok p ↦ elim (parse_hex (trim halves.1)) [
      | err _ ↦ none
      | ok n ↦ elim (checked_add p n) [ none ↦ none | some _ ↦ some (p, n) ]
    ]
  ]
]

unfoldable pub parse_ranges : List Chars → Option (List ByteRange)
parse_ranges [] = some []
parse_ranges (piece ∷ pieces) =
    let part = trim piece in
    let others = parse_ranges pieces in
    if is_empty part then others else elim (parse_range part) [
      | none ↦ none
      | some r ↦ elim others [ none ↦ none | some rs ↦ some (r ∷ rs) ]
    ]

-- `parse_scope`.
unfoldable pub parse_scope : Chars → Option (List ByteRange)
parse_scope s = elim (parse_ranges (split b',' s)) [
  | none ↦ none
  | some ranges ↦ some (merge_byte_ranges ranges)
]

-- `out.keyfps.contains(&fp)`.
unfoldable pub has_keyfp : List (List ℕ) → List ℕ → Bool
has_keyfp [] fp = false
has_keyfp (f ∷ fps) fp = nats_eq f fp || has_keyfp fps fp

module _ (lib : Library) where
  -- `parse_disc_hash`.
  abbrev pub parse_disc_hash : Chars → Option Chars
  parse_disc_hash s = elim (lib.parse_hex_fixed 20 s) [ none ↦ none | some b ↦ some (hex_lower b) ]

  -- `vid_fingerprint` and `key_fingerprint`.
  abbrev pub vid_fingerprint : List ℕ → List ℕ
  vid_fingerprint id = lib.sha256 (chars "freemkv-vid-fp-v1") id

  abbrev pub key_fingerprint : List ℕ → List ℕ
  key_fingerprint key = take 8 (lib.sha256 (chars "freemkv-key-fp-v1") key)

  -- `parse_uk_line`.
  abbrev pub parse_uk_line : Chars → Option (ℕ × List ℕ)
  parse_uk_line s = elim (split_once b':' s) [
    | none ↦ none
    | some halves ↦ elim (from_str_radix 10 u32_max (trim halves.0)) [
      | none ↦ none
      | some cps ↦ elim (lib.parse_hex_fixed 16 (trim halves.1)) [
        | none ↦ none
        | some key ↦ some (cps, key)
      ]
    ]
  ]

  abbrev pub add_keyfp : List ℕ → Parsed → Parsed
  add_keyfp fp p =
      if has_keyfp p.legacy_keyfps fp
      then p
      else record p { legacy_keyfps = p.legacy_keyfps ++ fp ∷ [] }

  abbrev pub uk_line : Chars → Parsed → Parsed
  uk_line s p = elim (parse_uk_line (trim s)) [
    | none ↦ p
    | some (cps, key) ↦ if ltb cps 16777216 then add_keyfp (key_fingerprint key) p else p
  ]
