-- ===== src/Messaging/Posting.antt =====
-- rust/src/domain/messaging/post_mail.rs: posting a mail, with the limits of limits.rs.
use nextexpress.Prelude.{
  ℕ, ◌*◌, Bool, true, false, not, Option, none, some, Result, ok, err, ltb, length, if◌then◌else◌,
}
use nextexpress.Text.{Text, is_empty}
use nextexpress.Time.{SystemTime}
use nextexpress.Conference.{MessageBaseRef, AllowedAddressing}
use nextexpress.User.{User, Right, has_access}
use nextexpress.User.Access.{has_granted_membership_for, record_message_posted}
use nextexpress.Messaging.{Mail, MailDraft, MailVisibility, BroadcastTo, addressing_allows}
use nextexpress.Messaging.Store.{MailStore, MailStoreError}

abbrev pub max_mail_subject_bytes : ℕ
max_mail_subject_bytes = 256

abbrev pub max_mail_body_bytes : ℕ
max_mail_body_bytes = 64 * 1024

pub record PostMailDraft : Type 0 where
  pub to_name : Text
  pub broadcast_to : BroadcastTo
  pub addressee_slot : Option ℕ
  pub from_name : Text
  pub subject : Text
  pub body : Text
  pub private : Bool
  pub posted_at : SystemTime

pub data PostMailError : Type 0 where
  access_denied no_membership empty_addressee addressing_not_allowed : PostMailError
  subject_too_long body_too_long addressee_mismatch : PostMailError
  store_rejects : MailStoreError → PostMailError

abbrev pub agrees : BroadcastTo → Option ℕ → Bool
agrees BroadcastTo.nobody (some slot) = true
agrees BroadcastTo.all none = true
agrees BroadcastTo.eall none = true
agrees _ _ = false

abbrev is_eall : BroadcastTo → Bool
is_eall BroadcastTo.eall = true
is_eall _ = false

abbrev pub selected_visibility : User → PostMailDraft → MailVisibility
selected_visibility user draft =
    if is_eall draft.broadcast_to
    then MailVisibility.public
    else if user.account.censored
    then MailVisibility.private_to_sysop
    else if draft.private
    then MailVisibility.private
    else MailVisibility.public

abbrev pub mail_draft : User → PostMailDraft → MailDraft
mail_draft user draft = record {
  visibility = selected_visibility user draft;
  from_name = draft.from_name;
  to_name = draft.to_name;
  broadcast_to = draft.broadcast_to;
  subject = draft.subject;
  posted_at = draft.posted_at;
  author_slot = user.slot_number;
  addressee_slot = draft.addressee_slot;
  body = draft.body;
}

-- The gates of `apply_post_mail`, in their order.
abbrev pub refusal :
    User → MessageBaseRef → AllowedAddressing → PostMailDraft → Option PostMailError
refusal user msgbase allowed draft =
    if is_empty draft.to_name
    then some empty_addressee
    else if ltb max_mail_subject_bytes (length draft.subject)
    then some subject_too_long
    else if ltb max_mail_body_bytes (length draft.body)
    then some body_too_long
    else if not (agrees draft.broadcast_to draft.addressee_slot)
    then some addressee_mismatch
    else if not (addressing_allows allowed draft.broadcast_to)
    then some addressing_not_allowed
    else if not (has_granted_membership_for msgbase.conference_number user.conferences)
    then some no_membership
    else none

module _ {S : Type 0} (store : MailStore S) where
  -- What follows the insert: its error, or the counters of the author.
  abbrev pub posted :
      User
      → MessageBaseRef
      → S × Result MailStoreError Mail
      → (User × S) × Result PostMailError Mail
  posted user msgbase (s, err e) = ((user, s), err (store_rejects e))
  posted user msgbase (s, ok mail) = (
    (
      record user {
        conferences = (record_message_posted msgbase.conference_number user.conferences).0;
      },
      s,
    ),
    ok mail,
  )

  unfoldable pub apply_post_mail :
      User
      → MessageBaseRef
      → AllowedAddressing
      → PostMailDraft
      → S
      → (User × S) × Result PostMailError Mail
  unfolding addressing_allows has_granted_membership_for record_message_posted
  apply_post_mail user msgbase allowed draft s = elim (refusal user msgbase allowed draft) [
    | some e ↦ ((user, s), err e)
    | none ↦ posted user msgbase (store.insert (mail_draft user draft) s)
  ]

  unfoldable pub post_mail :
      User
      → MessageBaseRef
      → AllowedAddressing
      → PostMailDraft
      → S
      → (User × S) × Result PostMailError Mail
  unfolding has_access apply_post_mail
  post_mail user msgbase allowed draft s =
      if not (has_access user Right.enter_message)
      then ((user, s), err access_denied)
      else apply_post_mail user msgbase allowed draft s
