-- ===== src/Mapfile/Status.antt =====
-- `SectorStatus` of src/recovery/mapfile.rs, its characters and the status sets.
use freemkv_engine.Base.{
  ℕ, ◌≡◌, Bool, true, false, ◌||◌, Option, none, some, List, [], ◌∷◌, arith, ◌==◌, if◌then◌else◌,
}

-- `SectorStatus`.
pub data SectorStatus : Type 0 where
  non_tried non_trimmed non_scraped unreadable finished : SectorStatus

-- `SectorStatus::is_finished`.
unfoldable pub is_finished : SectorStatus → Bool
is_finished non_tried = false
is_finished non_trimmed = false
is_finished non_scraped = false
is_finished unreadable = false
is_finished finished = true

-- The derived `PartialEq`.
unfoldable pub status_eq : SectorStatus → SectorStatus → Bool
status_eq non_tried non_tried = true
status_eq non_trimmed non_trimmed = true
status_eq non_scraped non_scraped = true
status_eq unreadable unreadable = true
status_eq finished finished = true
status_eq _ _ = false

-- `bad_sector_statuses`.
unfoldable pub bad_sector_statuses : List SectorStatus
bad_sector_statuses = non_tried ∷ non_trimmed ∷ non_scraped ∷ unreadable ∷ []

-- `damage_sector_statuses`.
unfoldable pub damage_sector_statuses : List SectorStatus
damage_sector_statuses = non_trimmed ∷ non_scraped ∷ unreadable ∷ []

-- `statuses.contains(&s)`.
unfoldable pub contains : List SectorStatus → SectorStatus → Bool
unfolding status_eq
contains [] s = false
contains (t ∷ ts) s = status_eq t s || contains ts s

-- `SectorStatus::to_char`, a character as its code point.
unfoldable pub to_char : SectorStatus → ℕ
to_char non_tried = b'?'
to_char non_trimmed = b'*'
to_char non_scraped = b'/'
to_char unreadable = b'-'
to_char finished = b'+'

-- `SectorStatus::from_char`.
unfoldable pub from_char : ℕ → Option SectorStatus
from_char c =
    if c == b'?'
    then some non_tried
    else if c == b'*'
    then some non_trimmed
    else if c == b'/'
    then some non_scraped
    else if c == b'-'
    then some unreadable
    else if c == b'+'
    then some finished
    else none

pub status_eq-true : (s t : SectorStatus) → status_eq s t ≡ true → s ≡ t
unfolding status_eq
status_eq-true s t h = ground arith

pub status_eq_self : (s : SectorStatus) → status_eq s s ≡ true
unfolding status_eq
status_eq_self s = ground arith
