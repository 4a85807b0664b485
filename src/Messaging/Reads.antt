-- ===== src/Messaging/Reads.antt =====
-- What rust/src/domain/messaging/read_mail.rs promises of a reading.
use nextexpress.Prelude.{
  ℕ, ◌≡◌, max, Bool, true, false, not, Option, none, some, Result, ok, err, ◌==◌, arith, ◌&&◌, any,
  if◌then◌else◌, refl, Bool-cases, inl, inr, ap, sym, subst, map, update_first, List, [], ◌∷◌,
}
use nextexpress.Time.{SystemTime}
use nextexpress.ReadPointers.{ReadPointers, advance_last_read, fresh}
use nextexpress.User.Access
use nextexpress.Conference.{MessageBaseRef}
use nextexpress.Conference.Membership.{ConferenceMembership}
use nextexpress.User.{User, Right, has_access}
use nextexpress.User.Access.{
  ConferenceAccess, advance_row, advance_pointers, has_row, of_conference,
  has_granted_membership_for, read_pointers_for,
}
use nextexpress.User.Pointers.{read_pointers_for-advance, advanced, same_base}
use nextexpress.Messaging.{Mail, is_deleted, is_unread_addressed_to, record_read_by}
use nextexpress.Messaging.Reading.{ReadMailError, can_read, read_mail}

granted_has_row :
    (n : ℕ) (rows : List ConferenceMembership)
    → any (λ m. m.conference_number == n && m.granted) rows ≡ true
    → any (of_conference n) rows ≡ true
granted_has_row n [] h = h
granted_has_row n (m ∷ rows) h = ground (arith, granted_has_row n rows)

-- All that the rule asks of a reading.
abbrev pub may_read : User → Mail → Bool
may_read user mail =
    has_access user Right.read_message
    && not (is_deleted mail)
    && can_read user mail
    && has_granted_membership_for mail.msgbase.conference_number user.conferences

abbrev pub succeeds : Result ReadMailError (Unit {0}) → Bool
succeeds (ok done) = true
succeeds (err e) = false

-- The row of pointers after a reading: the row from before, or one that is created at `now`, has
-- read up to the number at least, and has scanned at least as far as it has read.
abbrev pub row_after : MessageBaseRef → ℕ → SystemTime → Option ReadPointers → ReadPointers
row_after base number now none = record {
  msgbase_number = base.msgbase_number;
  last_read = number;
  last_scanned = number;
  new_since = now;
}
row_after base number now (some row) = record row {
  last_read = max row.last_read number;
  last_scanned = max row.last_scanned (max row.last_read number);
}

-- The mail after a reading: the first reading by the addressee is its receipt.
abbrev pub mail_after : ℕ → SystemTime → Mail → Option SystemTime → Option ℕ → Mail
mail_after reader now mail none (some slot) =
    if slot == reader then record mail { received_at = some now } else mail
mail_after reader now mail _ _ = mail

-- The pointers of every base after a reading of a mail.
abbrev pub HasReadUpTo : Mail → SystemTime → ConferenceAccess → ConferenceAccess → Type 0
HasReadUpTo mail now before after =
    (base : MessageBaseRef)
    → read_pointers_for base after ≡ (
        if same_base mail.msgbase base
        then some (row_after mail.msgbase mail.number now (read_pointers_for mail.msgbase before))
        else read_pointers_for base before)

-- A membership row but for its pointers.
abbrev pub without_pointers : ConferenceMembership → ConferenceMembership
without_pointers row = record row { pointers = [] }

-- The conferences of a user that has read a mail: all but the pointers is as it was.
pub record IsRead (mail : Mail) (now : SystemTime) (before after : ConferenceAccess) : Type 0 where
  pub advances : HasReadUpTo mail now before after
  pub keeps_rows : map without_pointers after.memberships ≡ map without_pointers before.memberships
  pub keeps_last_joined : after.last_joined ≡ before.last_joined
  pub keeps_messages_posted : after.messages_posted ≡ before.messages_posted

map-update_first :
    (n : ℕ) (f : ConferenceMembership → ConferenceMembership) (rows : List ConferenceMembership)
    → ((row : ConferenceMembership) → without_pointers (f row) ≡ without_pointers row)
    → map without_pointers (update_first (of_conference n) f rows) ≡ map without_pointers rows
map-update_first n f [] keep = refl
map-update_first n f (row ∷ rows) keep = elim (Bool-cases (of_conference n row)) [
  | inl here ↦ rw here (ap (λ first. first ∷ map without_pointers rows) (keep row))
  | inr later ↦ rw later (ap (◌∷◌ (without_pointers row)) (map-update_first n f rows keep))
]

without_pointers-advance_row :
    (n : ℕ) (now : SystemTime) (f : ReadPointers → ReadPointers) (row : ConferenceMembership)
    → without_pointers (advance_row n now f row) ≡ without_pointers row
unfolding advance_row
without_pointers-advance_row n now f row = ground arith

advanced-row_after :
    (base : MessageBaseRef) (number : ℕ) (now : SystemTime) (o : Option ReadPointers)
    → advanced base.msgbase_number now (advance_last_read number) o ≡ row_after base number now o
unfolding advance_last_read fresh
advanced-row_after base number now none = ground arith
advanced-row_after base number now (some row) = refl

advance-HasReadUpTo :
    (now : SystemTime) (user : User) (mail : Mail)
    → has_granted_membership_for mail.msgbase.conference_number user.conferences ≡ true
    → HasReadUpTo mail now user.conferences
        (Access.advance_last_read mail.msgbase mail.number now user.conferences).0
unfolding has_granted_membership_for has_row
advance-HasReadUpTo now user mail h base =
    let (read, scanned, seen, rest) =
      read_pointers_for-advance mail.msgbase base mail.number now user.conferences in
    ground (
      arith,
      seen,
      h,
      granted_has_row mail.msgbase.conference_number user.conferences.memberships,
      advanced-row_after mail.msgbase mail.number now
          (read_pointers_for mail.msgbase user.conferences),
    )

advance-IsRead :
    (now : SystemTime) (user : User) (mail : Mail)
    → has_granted_membership_for mail.msgbase.conference_number user.conferences ≡ true
    → IsRead mail now user.conferences
        (Access.advance_last_read mail.msgbase mail.number now user.conferences).0
unfolding Access.advance_last_read advance_pointers
advance-IsRead now user mail h = record {
  advances = advance-HasReadUpTo now user mail h;
  keeps_rows =
      map-update_first mail.msgbase.conference_number
        (advance_row mail.msgbase.msgbase_number now (advance_last_read mail.number))
        user.conferences.memberships
        (without_pointers-advance_row mail.msgbase.msgbase_number now
          (advance_last_read mail.number));
  keeps_last_joined = refl;
  keeps_messages_posted = refl;
}

record_read_by-mail_after :
    (reader : ℕ) (now : SystemTime) (mail : Mail)
    → is_deleted mail ≡ false
    → record_read_by reader now mail
      ≡ mail_after reader now mail mail.received_at mail.addressee_slot
unfolding record_read_by is_unread_addressed_to
record_read_by-mail_after reader now mail h = ground (arith, h)

read_user :
    (now : SystemTime) (user : User) (mail : Mail)
    → may_read user mail ≡ true
    → (read_mail now user mail).0.0 ≡ record user {
      conferences = (Access.advance_last_read mail.msgbase mail.number now user.conferences).0;
    }
unfolding read_mail
read_user now user mail h = ground (arith, h)

-- A reading succeeds exactly if the user has the right to read messages and a granted membership of
-- the conference and the mail is one that the user may read and is not deleted. An error changes
-- nothing. A success sets the time of receipt of a mail that has none and is addressed to the user,
-- and nothing else of the mail. Of the user it changes the read pointers of the mail's message base
-- alone: its row, which is created where there is none, has read up to the mail or as far as before,
-- whichever is further, and has scanned no less than that.
pub read_mail_lem :
    (now : SystemTime) (user : User) (mail : Mail)
    → let after = (read_mail now user mail).0 in
      (succeeds (read_mail now user mail).1 ≡ may_read user mail)
      × (may_read user mail ≡ false → (after.0 ≡ user) × (after.1 ≡ mail))
      × (may_read user mail ≡ true
          → (after.1 ≡ mail_after user.slot_number now mail mail.received_at mail.addressee_slot)
            × (after.0 ≡ record user { conferences = after.0.conferences })
            × IsRead mail now user.conferences after.0.conferences)
unfolding read_mail
read_mail_lem now user mail = (
  ground arith,
  (λ h. ground arith),
  λ h. (
    ground (arith, h, record_read_by-mail_after user.slot_number now mail),
    ground (arith, h),
    subst (λ u. IsRead mail now user.conferences u.conferences) (sym (read_user now user mail h))
        (advance-IsRead now user mail (ground (arith, h))),
  ),
)
