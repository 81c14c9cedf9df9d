-- ===== src/Mapfile/Render.antt =====
-- The text that `Mapfile::write_locked` of src/recovery/mapfile.rs writes, and `hex_lower`.
use Prim.Native.String.{String}
use freemkv_engine.Base.{
  ℕ, Bool, zero, suc, ◌+◌, ◌-◌, ◌/◌, ◌%◌, Option, none, some, List, [], ◌∷◌, ◌++◌, ltb,
  if◌then◌else◌, length,
}
use freemkv_engine.Ranges.{ByteRange}
use freemkv_engine.Mapfile.Status.{to_char}
use freemkv_engine.Mapfile.Entry.{MapEntry}
use freemkv_engine.Text.{Chars, chars}
use freemkv_engine.Mapfile.State.{Mapfile}

-- A lower-case hexadecimal digit.
unfoldable pub hex_digit : ℕ → ℕ
hex_digit d = if ltb d 10 then d + 48 else d + 87

unfoldable pub hex_onto : ℕ → ℕ → Chars → Chars
hex_onto zero n text = text
hex_onto (suc fuel) n text =
    let longer = hex_onto fuel (n / 16) (hex_digit (n % 16) ∷ text) in
    if ltb n 16 then hex_digit n ∷ text else longer

-- `{:x}` of a `u64`, which has at most sixteen digits.
unfoldable pub to_hex : ℕ → Chars
to_hex n = hex_onto 16 n []

unfoldable pub zeros : ℕ → Chars → Chars
zeros zero text = text
zeros (suc n) text = b'0' ∷ zeros n text

-- `0x{:09x}`.
unfoldable pub hex_field : ℕ → Chars
hex_field n = b'0' ∷ b'x' ∷ zeros (9 - length (to_hex n)) (to_hex n)

-- `hex_lower`.
unfoldable pub hex_lower : List ℕ → Chars
hex_lower [] = []
hex_lower (b ∷ bytes) = hex_digit (b / 16) ∷ hex_digit (b % 16) ∷ hex_lower bytes

-- The line of one entry.
unfoldable pub entry_line : MapEntry → Chars
entry_line e =
    hex_field e.pos
    ++ (chars "  " ++ (hex_field e.size ++ (chars "    " ++ (to_char e.status ∷ []))))

-- `0x{p:x}+0x{n:x}`, and these joined by commas.
abbrev pub range_text : ℕ → ℕ → Chars
range_text p n = chars "0x" ++ (to_hex p ++ (chars "+0x" ++ to_hex n))

unfoldable pub scope_list : List ByteRange → Chars
scope_list [] = []
scope_list ((p, n) ∷ []) = range_text p n
scope_list ((p, n) ∷ r ∷ rs) = range_text p n ++ b',' ∷ scope_list (r ∷ rs)

unfoldable pub entry_lines : List MapEntry → List Chars
entry_lines [] = []
entry_lines (e ∷ es) = entry_line e ∷ entry_lines es

unfoldable pub keyfp_lines : List (List ℕ) → List Chars
keyfp_lines [] = []
keyfp_lines (fp ∷ fps) = (chars "# freemkv-legacy-keyfp: " ++ hex_lower fp) ∷ keyfp_lines fps

-- A line for an optional header.
abbrev pub header_line {ℓ} : {A : Type ℓ} → String → (A → Chars) → Option A → List Chars
header_line prefix show none = []
header_line prefix show (some a) = (chars prefix ++ show a) ∷ []

abbrev pub raw_text : Bool → Chars
raw_text flag = if flag then b'1' ∷ [] else b'0' ∷ []

-- The lines of the file, in the order that they are written.
unfoldable pub render_lines : Mapfile → List Chars
render_lines m =
    (chars "# Rescue Logfile. Created by " ++ m.version)
    ∷ (header_line "# freemkv-disc: " (λ h. h) m.disc_hash
        ++ (header_line "# freemkv-vidfp: " hex_lower m.vidfp
            ++ (keyfp_lines m.legacy_keyfps
                ++ (header_line "# freemkv-scope: " scope_list m.scope
                    ++ (header_line "# freemkv-raw: " raw_text m.raw
                        ++ (chars "# Current pos / status / pass / pass_time")
                          ∷ (chars "0x000000000  ?  1  0")
                          ∷ (chars "#      pos        size  status")
                          ∷ entry_lines m.entries)))))

-- `writeln!` of every line.
unfoldable pub unlines : List Chars → Chars
unlines [] = []
unlines (l ∷ ls) = l ++ 10 ∷ unlines ls

unfoldable pub render : Mapfile → Chars
render m = unlines (render_lines m)
