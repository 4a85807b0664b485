-- ===== src/ConferenceFlags/Edits.antt =====
-- What an edit of scan flags does to the rows, by rust/src/domain/conference_flags.rs.
use nextexpress.Prelude.{
  ℕ, ◌≡◌, refl, ap, ◌∙◌, Bool, true, false, not, List, [], ◌∷◌, Option, none, some, option_map,
  find, filter, update_first, ◌==◌, arith, if◌then◌else◌,
}
use nextexpress.Conference.Membership.{
  ScanFlag, ConferenceMembership, scan_flag, set_scan_flag, toggle_scan_flag,
}
use nextexpress.ConferenceFlags.{
  ScanFlagSelection, all_on, all_off, toggle_all, toggle, apply_to, grants, edit_each, edit_granted,
  apply_scan_flag_edit,
}

-- Whether a number is in the list an odd number of times.
abbrev pub is_odd_in : ℕ → List ℕ → Bool
is_odd_in number [] = false
is_odd_in number (n ∷ ns) = if n == number then not (is_odd_in number ns) else is_odd_in number ns

-- What an edit makes of the flag in the row of a conference.
abbrev pub new_value : ScanFlagSelection → ℕ → Bool → Bool
new_value all_on number on = true
new_value all_off number on = false
new_value toggle_all number on = not on
new_value (toggle numbers) number on = if is_odd_in number numbers then not on else on

-- The row with a new value of one flag, of the four that it has.
abbrev pub edited : ScanFlag → (Bool → Bool) → ConferenceMembership → ConferenceMembership
edited ScanFlag.mail_scan f row = record row { mail_scan = f row.mail_scan }
edited ScanFlag.mail_scan_all f row = record row { mailscan_all = f row.mailscan_all }
edited ScanFlag.file_scan f row = record row { file_scan = f row.file_scan }
edited ScanFlag.zoom f row = record row { zoom_scan = f row.zoom_scan }

set-edited :
    (flag : ScanFlag) (on : Bool) (row : ConferenceMembership)
    → set_scan_flag flag on row ≡ edited flag (λ _. on) row
unfolding set_scan_flag
set-edited ScanFlag.mail_scan on row = refl
set-edited ScanFlag.mail_scan_all on row = refl
set-edited ScanFlag.file_scan on row = refl
set-edited ScanFlag.zoom on row = refl

toggle-edited :
    (flag : ScanFlag) (row : ConferenceMembership) → toggle_scan_flag flag row ≡ edited flag not row
unfolding toggle_scan_flag scan_flag set_scan_flag
toggle-edited ScanFlag.mail_scan row = refl
toggle-edited ScanFlag.mail_scan_all row = refl
toggle-edited ScanFlag.file_scan row = refl
toggle-edited ScanFlag.zoom row = refl

odd-edited :
    (b : Bool) (flag : ScanFlag) (row : ConferenceMembership)
    → (if b then edited flag not row else row) ≡ edited flag (λ on. if b then not on else on) row
odd-edited true flag row = refl
odd-edited false ScanFlag.mail_scan row = refl
odd-edited false ScanFlag.mail_scan_all row = refl
odd-edited false ScanFlag.file_scan row = refl
odd-edited false ScanFlag.zoom row = refl

map_ext :
    {f g : ConferenceMembership → ConferenceMembership}
    → ((row : ConferenceMembership) → f row ≡ g row)
    → (o : Option ConferenceMembership) → option_map f o ≡ option_map g o
map_ext e none = refl
map_ext e (some row) = ap some (e row)

not-not : (b : Bool) → not (not b) ≡ b
not-not true = refl
not-not false = refl

toggle_twice :
    (flag : ScanFlag) (row : ConferenceMembership)
    → toggle_scan_flag flag (toggle_scan_flag flag row) ≡ row
unfolding toggle_scan_flag scan_flag set_scan_flag
toggle_twice ScanFlag.mail_scan row = λ i. record row { mail_scan = not-not row.mail_scan i }
toggle_twice ScanFlag.mail_scan_all row =
    λ i. record row { mailscan_all = not-not row.mailscan_all i }
toggle_twice ScanFlag.file_scan row = λ i. record row { file_scan = not-not row.file_scan i }
toggle_twice ScanFlag.zoom row = λ i. record row { zoom_scan = not-not row.zoom_scan i }

set_granted :
    (flag : ScanFlag) (on : Bool) (row : ConferenceMembership)
    → (set_scan_flag flag on row).granted ≡ row.granted
unfolding set_scan_flag
set_granted ScanFlag.mail_scan on row = refl
set_granted ScanFlag.mail_scan_all on row = refl
set_granted ScanFlag.file_scan on row = refl
set_granted ScanFlag.zoom on row = refl

set_number :
    (flag : ScanFlag) (on : Bool) (row : ConferenceMembership)
    → (set_scan_flag flag on row).conference_number ≡ row.conference_number
unfolding set_scan_flag
set_number ScanFlag.mail_scan on row = refl
set_number ScanFlag.mail_scan_all on row = refl
set_number ScanFlag.file_scan on row = refl
set_number ScanFlag.zoom on row = refl

-- An edit that keeps the access and the number of a row.
abbrev KeepsKey : (ConferenceMembership → ConferenceMembership) → Type 0
KeepsKey f =
    (row : ConferenceMembership)
    → ((f row).granted ≡ row.granted) × ((f row).conference_number ≡ row.conference_number)

apply_to-KeepsKey :
    (flag : ScanFlag) (selection : ScanFlagSelection) → KeepsKey (apply_to flag selection)
unfolding apply_to toggle_scan_flag
apply_to-KeepsKey flag all_on row = (set_granted flag true row, set_number flag true row)
apply_to-KeepsKey flag all_off row = (set_granted flag false row, set_number flag false row)
apply_to-KeepsKey flag toggle_all row = (set_granted flag _ row, set_number flag _ row)
apply_to-KeepsKey flag (toggle ns) row = (set_granted flag _ row, set_number flag _ row)

module _ (f : ConferenceMembership → ConferenceMembership) (keeps : KeepsKey f) where
  grants-edit :
      (number : ℕ) (row : ConferenceMembership) → grants number (f row) ≡ grants number row
  grants-edit number row = rw ((keeps row).0, (keeps row).1) refl

  find-edit_first :
      (number n : ℕ) (rows : List ConferenceMembership)
      → find (grants number) (update_first (grants n) f rows) ≡ (
          if n == number
          then option_map f (find (grants number) rows)
          else find (grants number) rows)
  find-edit_first number n [] = ground arith
  find-edit_first number n (row ∷ rows) =
      ground (arith, grants-edit number row, find-edit_first number n rows)

  find-edit_granted :
      (number : ℕ) (rows : List ConferenceMembership)
      → find (grants number) (edit_granted f rows) ≡ option_map f (find (grants number) rows)
  find-edit_granted number [] = refl
  find-edit_granted number (row ∷ rows) =
      ground (arith, grants-edit number row, find-edit_granted number rows)

  refused-edit_first :
      (n : ℕ) (rows : List ConferenceMembership)
      → filter (λ row. not row.granted) (update_first (grants n) f rows)
        ≡ filter (λ row. not row.granted) rows
  refused-edit_first n [] = refl
  refused-edit_first n (row ∷ rows) = ground (arith, (keeps row).0, refused-edit_first n rows)

  refused-edit_granted :
      (rows : List ConferenceMembership)
      → filter (λ row. not row.granted) (edit_granted f rows) ≡ filter (λ row. not row.granted) rows
  refused-edit_granted [] = refl
  refused-edit_granted (row ∷ rows) = ground (arith, (keeps row).0, refused-edit_granted rows)

  refused-edit_each :
      (ns : List ℕ) (rows : List ConferenceMembership)
      → filter (λ row. not row.granted) (edit_each f ns rows) ≡ filter (λ row. not row.granted) rows
  refused-edit_each [] rows = refl
  refused-edit_each (n ∷ ns) rows =
      refused-edit_each ns (update_first (grants n) f rows) ∙ refused-edit_first n rows

  module _ (twice : (row : ConferenceMembership) → f (f row) ≡ row) where
    map_twice : (o : Option ConferenceMembership) → option_map f (option_map f o) ≡ o
    map_twice none = refl
    map_twice (some row) = ap some (twice row)

    find-edit_each :
        (number : ℕ) (ns : List ℕ) (rows : List ConferenceMembership)
        → find (grants number) (edit_each f ns rows) ≡ (
            if is_odd_in number ns
            then option_map f (find (grants number) rows)
            else find (grants number) rows)
    find-edit_each number [] rows = refl
    find-edit_each number (n ∷ ns) rows = ground (
      arith,
      find-edit_each number ns (update_first (grants n) f rows),
      find-edit_first number n rows,
      map_twice (find (grants number) rows),
    )

option_map-if :
    (b : Bool) (f : ConferenceMembership → ConferenceMembership) (o : Option ConferenceMembership)
    → (if b then option_map f o else o) ≡ option_map (λ row. if b then f row else row) o
option_map-if true f o = refl
option_map-if false f none = refl
option_map-if false f (some row) = refl

toggled_odd :
    (flag : ScanFlag) (b : Bool) (row : ConferenceMembership)
    → (if b then toggle_scan_flag flag row else row)
      ≡ edited flag (λ on. if b then not on else on) row
toggled_odd flag b row = rw (toggle-edited flag row) (odd-edited b flag row)

-- After an edit of the scan flags, the first granted row of each conference is the one from before
-- with the flag on, off or the other way round and all else as it was; a list of numbers toggles it where the number of that
-- conference is in the list an odd number of times, and leaves it otherwise. The rows without
-- access are as before.
pub apply_scan_flag_edit_lem :
    (flag : ScanFlag) (selection : ScanFlagSelection) (number : ℕ)
    (rows : List ConferenceMembership)
    → (find (grants number) (apply_scan_flag_edit flag selection rows)
        ≡ option_map (edited flag (new_value selection number)) (find (grants number) rows))
      × (filter (λ row. not row.granted) (apply_scan_flag_edit flag selection rows)
          ≡ filter (λ row. not row.granted) rows)
unfolding apply_scan_flag_edit apply_to toggle_scan_flag
apply_scan_flag_edit_lem flag all_on number rows = (
  find-edit_granted _ (apply_to-KeepsKey flag all_on) number rows
      ∙ map_ext (set-edited flag true) (find (grants number) rows),
  refused-edit_granted _ (apply_to-KeepsKey flag all_on) rows,
)
apply_scan_flag_edit_lem flag all_off number rows = (
  find-edit_granted _ (apply_to-KeepsKey flag all_off) number rows
      ∙ map_ext (set-edited flag false) (find (grants number) rows),
  refused-edit_granted _ (apply_to-KeepsKey flag all_off) rows,
)
apply_scan_flag_edit_lem flag toggle_all number rows = (
  find-edit_granted _ (apply_to-KeepsKey flag toggle_all) number rows
      ∙ map_ext (toggle-edited flag) (find (grants number) rows),
  refused-edit_granted _ (apply_to-KeepsKey flag toggle_all) rows,
)
apply_scan_flag_edit_lem flag (toggle ns) number rows = (
  find-edit_each _ (apply_to-KeepsKey flag (toggle ns)) (toggle_twice flag) number ns rows
      ∙ option_map-if (is_odd_in number ns) _ (find (grants number) rows)
      ∙ map_ext (toggled_odd flag (is_odd_in number ns)) (find (grants number) rows),
  refused-edit_each _ (apply_to-KeepsKey flag (toggle ns)) ns rows,
)
