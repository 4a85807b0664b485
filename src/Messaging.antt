-- ===== src/Messaging.antt =====
-- rust/src/domain/messaging/mail.rs: mails, the drafts they are made of, and the operations on one
-- mail. `none` is a panic.
pub mod Store
pub mod Reading
pub mod Posting
pub mod Deleting
pub mod Moving
pub mod Scanning
pub mod Kept
pub mod Reads
pub mod Posts
pub mod Deletes
pub mod Moves
pub mod Scans
pub mod Lowest
pub mod Replying
pub mod Passing
pub mod Forwards
use nextexpress.Prelude.{
  ℕ, Bool, true, false, ◌&&◌, ◌||◌, not, Option, none, some, List, [], ◌∷◌, ◌++◌, Result, ok, err,
  ◌==◌, if◌then◌else◌, ◌>>=◌,
}
use nextexpress.Text.{Text}
use nextexpress.Time.{SystemTime}
use nextexpress.Conference.{MessageBaseRef, AllowedAddressing}

pub data MailVisibility : Type 0 where
  public private private_to_sysop deleted : MailVisibility

unfoldable pub status_glyph : MailVisibility → ℕ
status_glyph MailVisibility.public = b' '
status_glyph MailVisibility.private = b'P'
status_glyph MailVisibility.private_to_sysop = b'p'
status_glyph MailVisibility.deleted = b'D'

pub data BroadcastTo : Type 0 where
  nobody all eall : BroadcastTo

unfoldable pub addressing_allows : AllowedAddressing → BroadcastTo → Bool
addressing_allows allowed BroadcastTo.nobody = true
addressing_allows AllowedAddressing.individual_or_all BroadcastTo.all = true
addressing_allows AllowedAddressing.any BroadcastTo.all = true
addressing_allows _ BroadcastTo.all = false
addressing_allows AllowedAddressing.individual_or_eall BroadcastTo.eall = true
addressing_allows AllowedAddressing.any BroadcastTo.eall = true
addressing_allows _ BroadcastTo.eall = false

pub record MailDraft : Type 0 where
  pub visibility : MailVisibility
  pub from_name : Text
  pub to_name : Text
  pub broadcast_to : BroadcastTo
  pub subject : Text
  pub posted_at : SystemTime
  pub author_slot : ℕ
  pub addressee_slot : Option ℕ
  pub body : Text

pub record MailAttachment : Type 0 where
  pub file_name : Text
  pub file_size : ℕ

pub record Mail : Type 0 where
  pub msgbase : MessageBaseRef
  pub number : ℕ
  pub visibility : MailVisibility
  pub from_name : Text
  pub to_name : Text
  pub broadcast_to : BroadcastTo
  pub subject : Text
  pub posted_at : SystemTime
  pub received_at : Option SystemTime
  pub author_slot : ℕ
  pub addressee_slot : Option ℕ
  pub body : Text
  pub attachments : List MailAttachment

-- `Mail::from_draft`, with `Mail::new`.
unfoldable pub from_draft : MessageBaseRef → ℕ → MailDraft → Mail
from_draft msgbase number draft = record {
  msgbase = msgbase;
  number = number;
  visibility = draft.visibility;
  from_name = draft.from_name;
  to_name = draft.to_name;
  broadcast_to = draft.broadcast_to;
  subject = draft.subject;
  posted_at = draft.posted_at;
  received_at = none;
  author_slot = draft.author_slot;
  addressee_slot = draft.addressee_slot;
  body = draft.body;
  attachments = [];
}

unfoldable pub to_draft : Mail → MailDraft
to_draft mail = record {
  visibility = mail.visibility;
  from_name = mail.from_name;
  to_name = mail.to_name;
  broadcast_to = mail.broadcast_to;
  subject = mail.subject;
  posted_at = mail.posted_at;
  author_slot = mail.author_slot;
  addressee_slot = mail.addressee_slot;
  body = mail.body;
}

unfoldable pub carry_state_from : Mail → Mail → Mail
carry_state_from source mail = record mail {
  received_at = source.received_at;
  attachments = source.attachments;
}

unfoldable pub push_attachment : MailAttachment → Mail → Mail
push_attachment attachment mail = record mail { attachments = mail.attachments ++ attachment ∷ [] }

unfoldable pub clear_attachments : Mail → Mail
clear_attachments mail = record mail { attachments = [] }

unfoldable pub set_subject : Text → Mail → Mail
set_subject subject mail = record mail { subject = subject }

unfoldable pub set_addressee : Text → Option ℕ → Mail → Mail
set_addressee to_name addressee_slot mail = record mail {
  to_name = to_name;
  addressee_slot = addressee_slot;
}

abbrev deletes : MailVisibility → Bool
deletes MailVisibility.deleted = true
deletes _ = false

unfoldable pub is_deleted : Mail → Bool
is_deleted mail = deletes mail.visibility

pub data MailTransitionError : Type 0 where
  illegal_transition : MailVisibility → MailVisibility → MailTransitionError

-- The table of `transition_to`.
abbrev pub is_legal : MailVisibility → MailVisibility → Bool
is_legal MailVisibility.public MailVisibility.deleted = true
is_legal MailVisibility.public MailVisibility.private = true
is_legal MailVisibility.private MailVisibility.deleted = true
is_legal MailVisibility.private MailVisibility.public = true
is_legal MailVisibility.private_to_sysop MailVisibility.deleted = true
is_legal _ _ = false

abbrev cascade : Mail → Mail
cascade mail = if deletes mail.visibility then record mail { received_at = none } else mail

unfoldable pub transition_to : MailVisibility → Mail → Mail × Result MailTransitionError (Unit {0})
unfolding is_deleted
transition_to target mail =
    if is_legal mail.visibility target
    then (cascade (record mail { visibility = target }), ok tt)
    else (mail, err (illegal_transition mail.visibility target))

pub data MailError : Type 0 where
  already_deleted : MailError

abbrev cleared :
    Mail × Result MailTransitionError (Unit {0}) → Option (Mail × Result MailError (Unit {0}))
cleared (mail, ok done) = some (clear_attachments mail, ok tt)
cleared (mail, err e) = none

unfoldable pub soft_delete : Mail → Option (Mail × Result MailError (Unit {0}))
unfolding is_deleted transition_to clear_attachments
soft_delete mail =
    if is_deleted mail
    then some (mail, err already_deleted)
    else cleared (transition_to MailVisibility.deleted mail)

abbrev pub is_slot : ℕ → Option ℕ → Bool
is_slot slot none = false
is_slot slot (some n) = n == slot

abbrev is_none : Option SystemTime → Bool
is_none none = true
is_none (some at) = false

unfoldable pub is_unread_addressed_to : ℕ → Mail → Bool
is_unread_addressed_to reader_slot mail =
    is_none mail.received_at && is_slot reader_slot mail.addressee_slot

unfoldable pub record_read_by : ℕ → SystemTime → Mail → Mail
unfolding is_deleted is_unread_addressed_to
record_read_by reader_slot now mail =
    if is_deleted mail || not (is_unread_addressed_to reader_slot mail)
    then mail
    else record mail { received_at = some now }

unfoldable pub mark_received : SystemTime → Mail → Mail × Result MailError (Unit {0})
unfolding is_deleted
mark_received at mail =
    if is_deleted mail
    then (mail, err already_deleted)
    else (record mail { received_at = some at }, ok tt)
