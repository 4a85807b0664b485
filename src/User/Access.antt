-- ===== src/User/Access.antt =====
-- rust/src/domain/user/conference_access.rs: membership rows, the last joined base, post counters.
-- A write through `iter_mut().find(…)` is `update_first`, and its Boolean result is `has_row`.
use nextexpress.Prelude.{
  ℕ, Bool, false, ◌&&◌, Option, none, some, List, [], ◌∷◌, ◌==◌, saturating_add, find, any,
  update_first, if◌then◌else◌,
}
use nextexpress.Time.{SystemTime}
use nextexpress.ReadPointers
use nextexpress.ReadPointers.{ReadPointers}
use nextexpress.Conference.{Conference, MessageBase, MessageBaseRef}
use nextexpress.Conference.Membership.{
  ConferenceMembership, ScanFlag, scan_flag, set_granted, pointers_for, upsert_pointers,
  update_pointers, bump_messages_posted,
}

pub record ConferenceAccess : Type 0 where
  pub memberships : List ConferenceMembership
  pub last_joined : Option MessageBaseRef
  pub messages_posted : ℕ

unfoldable pub new : ConferenceAccess
new = record { memberships = []; last_joined = none; messages_posted = 0 }

abbrev pub of_conference : ℕ → ConferenceMembership → Bool
of_conference n m = m.conference_number == n

unfoldable pub has_row : ℕ → ConferenceAccess → Bool
has_row n access = any (of_conference n) access.memberships

abbrev upsert : ConferenceMembership → List ConferenceMembership → List ConferenceMembership
upsert row [] = row ∷ []
upsert row (m ∷ ms) = if of_conference row.conference_number m then row ∷ ms else m ∷ upsert row ms

unfoldable pub upsert_membership : ConferenceMembership → ConferenceAccess → ConferenceAccess
upsert_membership row access = record access { memberships = upsert row access.memberships }

unfoldable pub set_membership_granted : ℕ → Bool → ConferenceAccess → ConferenceAccess × Bool
unfolding set_granted has_row
set_membership_granted n granted access = (
  record access {
    memberships = update_first (of_conference n) (set_granted granted) access.memberships;
  },
  has_row n access,
)

unfoldable pub scan_flag_for : ℕ → ScanFlag → ConferenceAccess → Bool
unfolding scan_flag
scan_flag_for n flag access = elim (find (of_conference n) access.memberships) [
  | none ↦ false
  | some m ↦ scan_flag flag m
]

unfoldable pub has_granted_membership_for : ℕ → ConferenceAccess → Bool
has_granted_membership_for n access =
    any (λ m. m.conference_number == n && m.granted) access.memberships

unfoldable pub record_join : Conference → MessageBase → ConferenceAccess → ConferenceAccess
record_join conf base access = record access {
  last_joined = some (record { conference_number = conf.number; msgbase_number = base.number });
}

unfoldable pub read_pointers_for : MessageBaseRef → ConferenceAccess → Option ReadPointers
unfolding pointers_for
read_pointers_for coord access =
    elim (find (of_conference coord.conference_number) access.memberships) [
      | none ↦ none
      | some m ↦ pointers_for m coord.msgbase_number
    ]

-- A write through `read_pointers_for_mut`, which gives none where there is no such row.
unfoldable update_read_pointers :
    MessageBaseRef → (ReadPointers → ReadPointers) → ConferenceAccess → ConferenceAccess
unfolding update_pointers
update_read_pointers coord f access = record access {
  memberships =
      update_first (of_conference coord.conference_number) (update_pointers coord.msgbase_number f)
        access.memberships;
}

-- The row of the base is created where the membership has none, and then advanced.
unfoldable pub advance_row :
    ℕ → SystemTime → (ReadPointers → ReadPointers) → ConferenceMembership → ConferenceMembership
unfolding pointers_for upsert_pointers update_pointers ReadPointers.fresh
advance_row n now advance m =
    let created = upsert_pointers (ReadPointers.fresh n now) m in
    update_pointers n advance (elim (pointers_for m n) [ none ↦ created | some row ↦ m ])

unfoldable pub advance_pointers :
    MessageBaseRef
    → SystemTime
    → (ReadPointers → ReadPointers)
    → ConferenceAccess
    → ConferenceAccess × Bool
unfolding advance_row has_row
advance_pointers coord now advance access = (
  record access {
    memberships =
        update_first (of_conference coord.conference_number)
          (advance_row coord.msgbase_number now advance) access.memberships;
  },
  has_row coord.conference_number access,
)

unfoldable pub advance_last_read :
    MessageBaseRef → ℕ → SystemTime → ConferenceAccess → ConferenceAccess × Bool
unfolding advance_pointers
advance_last_read coord to now = advance_pointers coord now (ReadPointers.advance_last_read to)

unfoldable pub advance_last_scanned :
    MessageBaseRef → ℕ → SystemTime → ConferenceAccess → ConferenceAccess × Bool
unfolding advance_pointers
advance_last_scanned coord to now =
    advance_pointers coord now (ReadPointers.advance_last_scanned to)

unfoldable pub upsert_read_pointers : ReadPointers → ℕ → ConferenceAccess → ConferenceAccess × Bool
unfolding upsert_pointers has_row
upsert_read_pointers row n access = (
  record access {
    memberships = update_first (of_conference n) (upsert_pointers row) access.memberships;
  },
  has_row n access,
)

unfoldable pub record_message_posted : ℕ → ConferenceAccess → ConferenceAccess × Bool
unfolding bump_messages_posted has_row
record_message_posted n access = (
  record access {
    messages_posted = saturating_add access.messages_posted 1;
    memberships = update_first (of_conference n) bump_messages_posted access.memberships;
  },
  has_row n access,
)
