-- ===== src/Examples/Flags.antt =====
-- The edits of scan flags of a user of three conferences, one of them without access, and the
-- listing of its flags.
use nextexpress.Prelude.{
  ℕ, ◌≡◌, refl, List, [], ◌∷◌, true, false, not, some, codes, option_map, find, filter, map,
}
use nextexpress.Menu.Line.{trim, is_whitespace, is_digit}
use nextexpress.Menu.Number.{parse_uint}
use nextexpress.Conference.{Conference, NameType}
use nextexpress.Conference.Membership.{
  ScanFlag, ConferenceMembership, new, scan_flag, set_scan_flag, toggle_scan_flag,
}
use nextexpress.ConferenceFlags.{
  ScanFlagSelection, ConfFlagRow, toggle, parse_scan_flag_selection, apply_scan_flag_edit, apply_to,
  grants, flag_row, conf_flag_rows,
}
use nextexpress.ConferenceFlags.Edits.{edited, new_value, apply_scan_flag_edit_lem}

abbrev rows : List ConferenceMembership
rows = new 5 true ∷ new 2 true ∷ new 3 false ∷ []

abbrev edit : ScanFlagSelection
edit = toggle (5 ∷ 3 ∷ 2 ∷ 5 ∷ 2 ∷ 5 ∷ [])

apply_scan_flag_edit_lem_example :
    (find (grants 5) (apply_scan_flag_edit ScanFlag.zoom edit rows)
      ≡ option_map (edited ScanFlag.zoom (new_value edit 5)) (find (grants 5) rows))
    × (filter (λ row. not row.granted) (apply_scan_flag_edit ScanFlag.zoom edit rows)
        ≡ filter (λ row. not row.granted) rows)
apply_scan_flag_edit_lem_example = apply_scan_flag_edit_lem ScanFlag.zoom edit 5 rows

zoom_after_edit :
    map (scan_flag ScanFlag.zoom) (apply_scan_flag_edit ScanFlag.zoom edit rows)
    ≡ true ∷ false ∷ false ∷ []
unfolding apply_scan_flag_edit apply_to toggle_scan_flag set_scan_flag scan_flag new
zoom_after_edit = refl

numbers_parsed : parse_scan_flag_selection (codes " 5, x,+2 ,") ≡ some (toggle (5 ∷ 2 ∷ []))
unfolding parse_scan_flag_selection trim is_whitespace parse_uint is_digit
numbers_parsed = refl

abbrev conference : ℕ → Conference
conference number = record {
  number = number;
  name = codes "A";
  msgbases = [];
  accepted_name_type = NameType.handle;
}

numbers_listed :
    map
      (λ (row : ConfFlagRow). row.conference_number)
      (conf_flag_rows rows (conference 2 ∷ conference 3 ∷ conference 5 ∷ []))
    ≡ 2 ∷ 5 ∷ []
unfolding conf_flag_rows flag_row scan_flag new
numbers_listed = refl
