-- ===== src/ConferenceFlags.antt =====
-- rust/src/domain/conference_flags.rs: the edit of the scan flags of a user's conferences, and the
-- rows of the listing that it shows.
pub mod Edits
use nextexpress.Prelude.{
  ℕ, Bool, true, false, ◌&&◌, List, [], ◌∷◌, Option, none, some, map, option_map, head?, find,
  filter, update_first, leb, ◌==◌, codes, u32_max, if◌then◌else◌,
}
use nextexpress.Prelude.Keyed.{filter_map}
use nextexpress.Text.{Text, text_eq, is_empty}
use nextexpress.Menu.Line.{trim, split, upper}
use nextexpress.Menu.Number.{parse_uint}
use nextexpress.Conference.{Conference}
use nextexpress.Conference.Membership.{
  ScanFlag, ConferenceMembership, scan_flag, set_scan_flag, toggle_scan_flag,
}

pub data ScanFlagSelection : Type 0 where
  all_on all_off toggle_all : ScanFlagSelection
  toggle : List ℕ → ScanFlagSelection

abbrev selection_of : Text → ScanFlagSelection
selection_of trimmed =
    if text_eq trimmed (codes "+")
    then all_on
    else if text_eq trimmed (codes "-")
    then all_off
    else if text_eq trimmed (codes "*")
    then toggle_all
    else toggle
        (filter_map (λ token. parse_uint u32_max (trim token)) (split (λ c. c == b',') trimmed))

unfoldable pub parse_scan_flag_selection : Text → Option ScanFlagSelection
parse_scan_flag_selection input =
    let trimmed = trim input in if is_empty trimmed then none else some (selection_of trimmed)

abbrev mask_of : ℕ → Option ScanFlag
mask_of c =
    if c == b'M'
    then some ScanFlag.mail_scan
    else if c == b'A'
    then some ScanFlag.mail_scan_all
    else if c == b'F'
    then some ScanFlag.file_scan
    else if c == b'Z'
    then some ScanFlag.zoom
    else none

abbrev mask_of_first : Option ℕ → Option ScanFlag
mask_of_first none = none
mask_of_first (some c) = mask_of (upper c)

unfoldable pub parse_scan_flag_mask : Text → Option ScanFlag
parse_scan_flag_mask input = mask_of_first (head? (trim input))

-- The edit of one row, the closure `apply_to`.
unfoldable pub apply_to : ScanFlag → ScanFlagSelection → ConferenceMembership → ConferenceMembership
apply_to flag all_on row = set_scan_flag flag true row
apply_to flag all_off row = set_scan_flag flag false row
apply_to flag _ row = toggle_scan_flag flag row

abbrev pub grants : ℕ → ConferenceMembership → Bool
grants number row = row.granted && row.conference_number == number

-- A loop over the numbers, each of which edits the first granted row of that number.
abbrev pub edit_each :
    (ConferenceMembership → ConferenceMembership)
    → List ℕ
    → List ConferenceMembership
    → List ConferenceMembership
edit_each f [] rows = rows
edit_each f (number ∷ numbers) rows = edit_each f numbers (update_first (grants number) f rows)

-- The loop over the granted rows.
abbrev pub edit_granted :
    (ConferenceMembership → ConferenceMembership)
    → List ConferenceMembership
    → List ConferenceMembership
edit_granted f [] = []
edit_granted f (row ∷ rows) = (if row.granted then f row else row) ∷ edit_granted f rows

unfoldable pub apply_scan_flag_edit :
    ScanFlag → ScanFlagSelection → List ConferenceMembership → List ConferenceMembership
apply_scan_flag_edit flag (toggle numbers) rows =
    edit_each (apply_to flag (toggle numbers)) numbers rows
apply_scan_flag_edit flag selection rows = edit_granted (apply_to flag selection) rows

pub record ConfFlagRow : Type 0 where
  pub conference_number : ℕ
  pub conference_name : Text
  pub mail_scan : Bool
  pub mailscan_all : Bool
  pub file_scan : Bool
  pub zoom_scan : Bool

unfoldable pub flag_row : List Conference → ConferenceMembership → Option ConfFlagRow
flag_row conferences row =
    option_map
      (λ (conference : Conference). record {
        conference_number = row.conference_number;
        conference_name = conference.name;
        mail_scan = scan_flag ScanFlag.mail_scan row;
        mailscan_all = scan_flag ScanFlag.mail_scan_all row;
        file_scan = scan_flag ScanFlag.file_scan row;
        zoom_scan = scan_flag ScanFlag.zoom row;
      })
      (find (λ (conference : Conference). conference.number == row.conference_number) conferences)

-- `sort_by_key` on the number, which is stable.
abbrev insert_row : ConfFlagRow → List ConfFlagRow → List ConfFlagRow
insert_row row [] = row ∷ []
insert_row row (r ∷ rows) =
    if leb row.conference_number r.conference_number
    then row ∷ r ∷ rows
    else r ∷ insert_row row rows

abbrev sort_rows : List ConfFlagRow → List ConfFlagRow
sort_rows [] = []
sort_rows (row ∷ rows) = insert_row row (sort_rows rows)

unfoldable pub conf_flag_rows : List ConferenceMembership → List Conference → List ConfFlagRow
conf_flag_rows memberships conferences =
    sort_rows (filter_map (flag_row conferences) (filter (λ row. row.granted) memberships))
