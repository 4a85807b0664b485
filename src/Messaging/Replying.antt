-- ===== src/Messaging/Replying.antt =====
-- rust/src/domain/messaging/reply_to_mail.rs, forward_mail.rs, post_comment_to_sysop.rs and
-- attach_file_to_mail.rs: the rules that make a post of another mail, and attachments.
use nextexpress.Prelude.{
  ℕ, ◌+◌, Bool, true, false, ◌&&◌, not, Option, none, some, ◌∷◌, [], ◌++◌, Result, ok, err, ltb,
  ◌==◌, length, codes, map_or, if◌then◌else◌,
}
use nextexpress.Text.{Text}
use nextexpress.Time.{SystemTime}
use nextexpress.Conference.{MessageBaseRef, AllowedAddressing}
use nextexpress.User.{User, Right, has_access, is_sysop}
use nextexpress.Messaging.{Mail, MailVisibility, BroadcastTo, is_deleted, push_attachment}
use nextexpress.Messaging.Store.{MailStore}
use nextexpress.Messaging.Reading.{can_read}
use nextexpress.Messaging.Posting.{
  PostMailDraft, PostMailError, body_too_long, max_mail_body_bytes, post_mail, apply_post_mail,
}

pub record ReplyToMailDraft : Type 0 where
  pub from_name : Text
  pub subject : Text
  pub body : Text
  pub private : Bool
  pub reply_keeps_broadcast : Bool
  pub posted_at : SystemTime

-- `ReplyToMailError` and `ForwardMailError`, which have the same variants.
pub data PassOnError : Type 0 where
  source_deleted source_not_permitted : PassOnError
  post : PostMailError → PassOnError

abbrev pub is_all : BroadcastTo → Bool
is_all BroadcastTo.all = true
is_all _ = false

unfoldable pub reply_draft : Mail → ReplyToMailDraft → PostMailDraft
reply_draft source draft =
    let keeps_all = is_all source.broadcast_to && draft.reply_keeps_broadcast in
    record {
      to_name = if keeps_all then codes "ALL" else source.from_name;
      broadcast_to = if keeps_all then BroadcastTo.all else BroadcastTo.nobody;
      addressee_slot = if keeps_all then none else some source.author_slot;
      from_name = draft.from_name;
      subject = draft.subject;
      body = draft.body;
      private = draft.private;
      posted_at = draft.posted_at;
    }

pub record ForwardMailRequest : Type 0 where
  pub new_addressee_name : Text
  pub new_addressee_slot : ℕ
  pub additional_note : Option Text
  pub from_name : Text
  pub posted_at : SystemTime

pub record CommentToSysopDraft : Type 0 where
  pub sysop_slot : ℕ
  pub from_name : Text
  pub subject : Text
  pub body : Text
  pub posted_at : SystemTime

unfoldable pub comment_draft : CommentToSysopDraft → PostMailDraft
comment_draft draft = record {
  to_name = codes "Sysop";
  broadcast_to = BroadcastTo.nobody;
  addressee_slot = some draft.sysop_slot;
  from_name = draft.from_name;
  subject = draft.subject;
  body = draft.body;
  private = true;
  posted_at = draft.posted_at;
}

abbrev line : Text → Text
line text = text ++ b'\n' ∷ []

abbrev is_public : MailVisibility → Bool
is_public MailVisibility.public = true
is_public _ = false

abbrev pub noted : Option Text → Text → Text
noted none body = body
noted (some note) body = (body ++ codes "\n--\n") ++ note

abbrev pub or_unknown : Option Text → Text
or_unknown none = codes "unknown"
or_unknown (some text) = text

-- The date in the header of a forward is formatted by the crate `time`; none is its error.
module _ (rfc3339 : SystemTime → Option Text) where
  unfoldable pub forward_header_for : Mail → Text
  forward_header_for mail =
      line (codes "From: " ++ mail.from_name)
      ++ line (codes "Date: " ++ or_unknown (rfc3339 mail.posted_at))
      ++ line (codes "Subject: " ++ mail.subject)

  -- The length as the code adds it up before it builds the body. A sum past the largest `usize` is
  -- past the limit too, and has the same error.
  unfoldable pub forwarded_body_len : Mail → ForwardMailRequest → ℕ
  forwarded_body_len source request =
      length (forward_header_for source)
      + 1
      + length source.body
      + map_or 0 (λ (note : Text). 4 + length note) request.additional_note

  unfoldable pub forward_draft : Mail → ForwardMailRequest → PostMailDraft
  forward_draft source request = record {
    to_name = request.new_addressee_name;
    broadcast_to = BroadcastTo.nobody;
    addressee_slot = some request.new_addressee_slot;
    from_name = request.from_name;
    subject = codes "Fwd: " ++ source.subject;
    body = noted request.additional_note ((forward_header_for source ++ b'\n' ∷ []) ++ source.body);
    private = not (is_public source.visibility);
    posted_at = request.posted_at;
  }

-- `?` on the post.
abbrev pub as_post : {R : Type 0} → R × Result PostMailError Mail → R × Result PassOnError Mail
as_post (r, ok mail) = (r, ok mail)
as_post (r, err e) = (r, err (post e))

module _ {S : Type 0} (store : MailStore S) where
  unfoldable pub reply_to_mail :
      User
      → MessageBaseRef
      → AllowedAddressing
      → Mail
      → ReplyToMailDraft
      → S
      → (User × S) × Result PassOnError Mail
  reply_to_mail user msgbase allowed source draft s =
      if is_deleted source
      then ((user, s), err source_deleted)
      else if not (can_read user source)
      then ((user, s), err source_not_permitted)
      else as_post (post_mail store user msgbase allowed (reply_draft source draft) s)

  unfoldable pub forward_mail :
      (SystemTime → Option Text)
      → User
      → MessageBaseRef
      → AllowedAddressing
      → Mail
      → ForwardMailRequest
      → S
      → (User × S) × Result PassOnError Mail
  forward_mail rfc3339 user msgbase allowed source request s =
      if is_deleted source
      then ((user, s), err source_deleted)
      else if not (can_read user source)
      then ((user, s), err source_not_permitted)
      else if ltb max_mail_body_bytes (forwarded_body_len rfc3339 source request)
      then ((user, s), err (post body_too_long))
      else as_post (post_mail store user msgbase allowed (forward_draft rfc3339 source request) s)

  unfoldable pub post_comment_to_sysop :
      User
      → MessageBaseRef
      → AllowedAddressing
      → CommentToSysopDraft
      → S
      → (User × S) × Result PostMailError Mail
  post_comment_to_sysop user msgbase allowed draft s =
      if not (has_access user Right.comment_to_sysop)
      then ((user, s), err PostMailError.access_denied)
      else apply_post_mail store user msgbase allowed (comment_draft draft) s

pub data AttachFileToMailError : Type 0 where
  not_author_or_sysop deleted access_denied : AttachFileToMailError

unfoldable pub attach_file_to_mail :
    User → Text → ℕ → Mail → Mail × Result AttachFileToMailError (Unit {0})
attach_file_to_mail user file_name file_size mail =
    if not (is_sysop user) && not (user.slot_number == mail.author_slot)
    then (mail, err not_author_or_sysop)
    else if is_deleted mail
    then (mail, err deleted)
    else if not (has_access user Right.attach_files)
    then (mail, err AttachFileToMailError.access_denied)
    else (push_attachment (record { file_name = file_name; file_size = file_size }) mail, ok tt)
