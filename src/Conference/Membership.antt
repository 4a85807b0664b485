-- ===== src/Conference/Membership.antt =====
-- The membership rows of rust/src/domain/conference.rs.
use nextexpress.Prelude.{
  ℕ, Bool, true, false, ◌&&◌, Option, none, some, List, [], ◌∷◌, ◌==◌, not, saturating_add, find,
  any, update_first, if◌then◌else◌,
}
use nextexpress.ReadPointers.{ReadPointers}
use nextexpress.Conference.{Conference, MessageBase, MessageBaseRef, find_msgbase}

pub data ScanFlag : Type 0 where
  mail_scan mail_scan_all file_scan zoom : ScanFlag

pub record ScanFlagSettings : Type 0 where
  pub mail_scan : Bool
  pub mailscan_all : Bool
  pub file_scan : Bool
  pub zoom_scan : Bool

pub record ConferenceMembership : Type 0 where
  pub conference_number : ℕ
  pub granted : Bool
  pub pointers : List ReadPointers
  pub messages_posted : ℕ
  pub mail_scan : Bool
  pub mailscan_all : Bool
  pub file_scan : Bool
  pub zoom_scan : Bool

unfoldable pub new : ℕ → Bool → ConferenceMembership
new conference_number granted = record {
  conference_number = conference_number;
  granted = granted;
  pointers = [];
  messages_posted = 0;
  mail_scan = true;
  mailscan_all = false;
  file_scan = true;
  zoom_scan = false;
}

unfoldable pub scan_flag : ScanFlag → ConferenceMembership → Bool
scan_flag ScanFlag.mail_scan row = row.mail_scan
scan_flag ScanFlag.mail_scan_all row = row.mailscan_all
scan_flag ScanFlag.file_scan row = row.file_scan
scan_flag ScanFlag.zoom row = row.zoom_scan

unfoldable pub set_scan_flag : ScanFlag → Bool → ConferenceMembership → ConferenceMembership
set_scan_flag ScanFlag.mail_scan on row = record row { mail_scan = on }
set_scan_flag ScanFlag.mail_scan_all on row = record row { mailscan_all = on }
set_scan_flag ScanFlag.file_scan on row = record row { file_scan = on }
set_scan_flag ScanFlag.zoom on row = record row { zoom_scan = on }

unfoldable pub toggle_scan_flag : ScanFlag → ConferenceMembership → ConferenceMembership
unfolding scan_flag set_scan_flag
toggle_scan_flag flag row = set_scan_flag flag (not (scan_flag flag row)) row

unfoldable pub set_scan_flags : ScanFlagSettings → ConferenceMembership → ConferenceMembership
set_scan_flags flags row = record row {
  mail_scan = flags.mail_scan;
  mailscan_all = flags.mailscan_all;
  file_scan = flags.file_scan;
  zoom_scan = flags.zoom_scan;
}

unfoldable pub add_messages_posted : ℕ → ConferenceMembership → ConferenceMembership
add_messages_posted n row = record row { messages_posted = saturating_add row.messages_posted n }

unfoldable pub bump_messages_posted : ConferenceMembership → ConferenceMembership
unfolding add_messages_posted
bump_messages_posted = add_messages_posted 1

unfoldable pub set_granted : Bool → ConferenceMembership → ConferenceMembership
set_granted granted row = record row { granted = granted }

abbrev pub of_base : ℕ → ReadPointers → Bool
of_base n row = row.msgbase_number == n

unfoldable pub pointers_for : ConferenceMembership → ℕ → Option ReadPointers
pointers_for row n = find (of_base n) row.pointers

-- The row for the base is overwritten where there is one, and appended where there is none.
abbrev pub upsert : ReadPointers → List ReadPointers → List ReadPointers
upsert row [] = row ∷ []
upsert row (p ∷ ps) = if of_base row.msgbase_number p then row ∷ ps else p ∷ upsert row ps

unfoldable pub upsert_pointers : ReadPointers → ConferenceMembership → ConferenceMembership
upsert_pointers row membership = record membership { pointers = upsert row membership.pointers }

-- A write through `pointers_for_mut`.
unfoldable pub update_pointers :
    ℕ → (ReadPointers → ReadPointers) → ConferenceMembership → ConferenceMembership
update_pointers n f membership = record membership {
  pointers = update_first (of_base n) f membership.pointers;
}

abbrev upsert_all : List ReadPointers → ConferenceMembership → ConferenceMembership
upsert_all [] membership = membership
upsert_all (row ∷ rows) membership = upsert_all rows (upsert_pointers row membership)

unfoldable pub from_persisted :
    ℕ → Bool → ℕ → ScanFlagSettings → List ReadPointers → ConferenceMembership
unfolding new set_scan_flags upsert_pointers
from_persisted conference_number granted messages_posted flags pointers = upsert_all pointers (
    set_scan_flags flags
      (record (new conference_number granted) { messages_posted = messages_posted }))

unfoldable pub has_membership : List ConferenceMembership → Conference → Bool
has_membership memberships conf =
    any (λ m. m.conference_number == conf.number && m.granted) memberships

unfoldable pub first_accessible_conference :
    List ConferenceMembership → List Conference → Option Conference
unfolding has_membership
first_accessible_conference memberships conferences = find (has_membership memberships) conferences

unfoldable pub find_msgbase_in : List Conference → MessageBaseRef → Option MessageBase
unfolding find_msgbase
find_msgbase_in catalogue coord = elim (find (λ c. c.number == coord.conference_number) catalogue) [
  | none ↦ none
  | some conf ↦ find_msgbase conf coord.msgbase_number
]
