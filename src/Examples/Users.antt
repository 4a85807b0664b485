-- ===== src/Examples/Users.antt =====
-- The theorems on users, conferences and the clock, at small inputs.
use nextexpress.Prelude.{
  ℕ, ◌+◌, ◌≡◌, ◌≤◌, ◌↔◌, refl, true, ◌&&◌, ◌||◌, not, none, some, [], ◌∷◌, ok, err, codes, min,
  length, if◌then◌else◌,
}
use nextexpress.Time.{unix_epoch, from_secs, floor_to_day}
use nextexpress.Password.{meets_password_strength}
use nextexpress.Password.Strength.{categories_in, meets_password_strength_lem}
use nextexpress.ReadPointers
use nextexpress.ReadPointers.{ReadPointers, ReadPointersError, IsOrdered, IsOrdered-operations}
use nextexpress.Conference.{NameType, MessageBaseRef, with_name_type}
use nextexpress.User.{User}
use nextexpress.User.Access
use nextexpress.User.Auth.{salt_required}
use nextexpress.User.Persisted.{
  PersistedUser, to_persisted, from_persisted, to_persisted-from_persisted,
}
use nextexpress.User.Pointers.{same_base, advanced, read_pointers_for-advance}
use nextexpress.Files.Flagged.{FlaggedKey, FlaggedFiles, flag, contains, compare_key, is_eq}
use nextexpress.Files.Flagged.Order.{Ascends, flag_lem}
use nextexpress.Examples.Fixtures.{alice, base_of, conference_of}

abbrev snapshot : PersistedUser
snapshot = to_persisted alice

to_persisted-from_persisted_example :
    ((snapshot.password_salt ≡ none) ↔ (from_persisted snapshot ≡ err salt_required))
    × ((user : User) → from_persisted snapshot ≡ ok user → to_persisted user ≡ snapshot)
to_persisted-from_persisted_example = to_persisted-from_persisted snapshot

abbrev coord : MessageBaseRef
coord = record { conference_number = 2; msgbase_number = 1 }

read_pointers_for-advance_example :
    let access = alice.conferences in
    let seen = Access.read_pointers_for coord access in
    let applies = same_base coord coord && Access.has_row 2 access in
    ((Access.advance_last_read coord 5 9 access).1 ≡ Access.has_row 2 access)
    × ((Access.advance_last_scanned coord 5 9 access).1 ≡ Access.has_row 2 access)
    × (Access.read_pointers_for coord (Access.advance_last_read coord 5 9 access).0 ≡ (
        if applies
        then some (advanced 1 9 (ReadPointers.advance_last_read 5) seen)
        else Access.read_pointers_for coord access))
    × (Access.read_pointers_for coord (Access.advance_last_scanned coord 5 9 access).0 ≡ (
        if applies
        then some (advanced 1 9 (ReadPointers.advance_last_scanned 5) seen)
        else Access.read_pointers_for coord access))
read_pointers_for-advance_example = read_pointers_for-advance coord coord 5 9 alice.conferences

meets_password_strength_lem_example :
    (meets_password_strength (codes "abcD12") 6 3 ≡ true)
    ↔ ((6 ≤ length (codes "abcD12")) × (min 3 4 ≤ categories_in (codes "abcD12")))
meets_password_strength_lem_example = meets_password_strength_lem (codes "abcD12") 6 3

built : with_name_type 4 (codes "Main") (base_of 4 ∷ []) NameType.real_name ≡ ok (conference_of 4)
unfolding with_name_type
built = refl

abbrev noon : ℕ
noon = unix_epoch + from_secs 43200

abbrev evening : ℕ
evening = unix_epoch + from_secs 64800

on_one_day : floor_to_day noon 0 ≡ floor_to_day evening 0
unfolding floor_to_day
on_one_day = refl

abbrev read_to_three : ReadPointers
read_to_three = record { msgbase_number = 1; last_read = 3; last_scanned = 4; new_since = 0 }

abbrev flagged : FlaggedFiles
flagged = record { set = record { conference = 1; name = codes "A.LHA" } ∷ [] }

abbrev new_file : FlaggedKey
new_file = record { conference = 1; name = codes "A.DMS" }

flag_lem_example :
    Ascends (flag new_file flagged).0.set
    × ((other : FlaggedKey)
        → contains other (flag new_file flagged).0
          ≡ (is_eq (compare_key other new_file) || contains other flagged))
    × ((flag new_file flagged).1 ≡ not (contains new_file flagged))
flag_lem_example = flag_lem new_file flagged (tt, tt)
