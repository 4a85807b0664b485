-- ===== src/Examples/Replies.antt =====
-- The theorems on replies and forwards, at a store of one message.
use nextexpress.Prelude.{
  ◌≡◌, ◌≤◌, refl, true, false, Option, none, some, Result, ok, err, codes, length,
}
use nextexpress.Text.{Text}
use nextexpress.Time.{SystemTime}
use nextexpress.Conference.{AllowedAddressing}
use nextexpress.User.{User}
use nextexpress.Messaging.{Mail, MailVisibility, is_deleted}
use nextexpress.Messaging.Reading.{can_read}
use nextexpress.Messaging.Posting.{max_mail_body_bytes}
use nextexpress.Messaging.Posts.{IsPosted}
use nextexpress.Messaging.Replying.{
  ReplyToMailDraft, ForwardMailRequest, PassOnError, forward_draft, reply_to_mail, forward_mail,
}
use nextexpress.Messaging.Forwards.{forward_mail_lem}
use nextexpress.Examples.Fixtures.{alice, Shelf, shelf_store, shelf_store-IsMailStore}
use nextexpress.Examples.Mails.{main_base, note, shelf}

abbrev thanks : ReplyToMailDraft
thanks = record {
  from_name = codes "alice";
  subject = codes "re: hi";
  body = codes "thanks";
  private = true;
  reply_keeps_broadcast = true;
  posted_at = 6;
}

abbrev to_carol : ForwardMailRequest
to_carol = record {
  new_addressee_name = codes "carol";
  new_addressee_slot = 8;
  additional_note = some (codes "see below");
  from_name = codes "alice";
  posted_at = 6;
}

abbrev no_date : SystemTime → Option Text
no_date at = none

abbrev replied : (User × Shelf) × Result PassOnError Mail
replied = reply_to_mail shelf_store alice main_base AllowedAddressing.any note thanks shelf

abbrev forwarded : (User × Shelf) × Result PassOnError Mail
forwarded =
    forward_mail shelf_store no_date alice main_base AllowedAddressing.any note to_carol shelf

forward_mail_lem_example :
    ((e : PassOnError) → forwarded.1 ≡ err e → (forwarded.0.0 ≡ alice) × (forwarded.0.1 ≡ shelf))
    × ((mail : Mail)
        → forwarded.1 ≡ ok mail
        → (is_deleted note ≡ false)
          × (can_read alice note ≡ true)
          × IsPosted shelf_store alice forwarded.0.0
              (forward_draft no_date note to_carol)
              shelf
              forwarded.0.1
              mail
          × (mail.visibility ≡ MailVisibility.public → note.visibility ≡ MailVisibility.public)
          × length mail.body ≤ max_mail_body_bytes)
forward_mail_lem_example =
    forward_mail_lem shelf_store shelf_store-IsMailStore no_date alice forwarded.0.0 main_base
      AllowedAddressing.any note to_carol shelf forwarded.0.1 forwarded.1 refl
