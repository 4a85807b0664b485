-- ===== src/Messaging/Reading.antt =====
-- rust/src/domain/messaging/read_mail.rs: who may read a mail, and the reading of it.
use nextexpress.Prelude.{Bool, true, false, ◌||◌, not, Result, ok, err, ◌==◌, if◌then◌else◌}
use nextexpress.Time.{SystemTime}
use nextexpress.User.{User, Right, is_sysop, has_access}
use nextexpress.User.Access.{has_granted_membership_for, advance_last_read}
use nextexpress.Messaging.{Mail, MailVisibility, is_deleted, is_slot, record_read_by}

pub data ReadMailError : Type 0 where
  access_denied deleted not_permitted no_membership : ReadMailError

abbrev pub is_author : User → Mail → Bool
is_author user mail = mail.author_slot == user.slot_number

abbrev pub is_addressee : User → Mail → Bool
is_addressee user mail = is_slot user.slot_number mail.addressee_slot

abbrev sees : MailVisibility → User → Mail → Bool
sees MailVisibility.public user mail = true
sees MailVisibility.private user mail = is_author user mail || is_addressee user mail
sees MailVisibility.private_to_sysop user mail = is_author user mail
sees MailVisibility.deleted user mail = false

unfoldable pub can_read : User → Mail → Bool
unfolding is_sysop is_deleted
can_read user mail = if is_sysop user then not (is_deleted mail) else sees mail.visibility user mail

unfoldable pub read_mail :
    SystemTime → User → Mail → (User × Mail) × Result ReadMailError (Unit {0})
unfolding has_access is_deleted can_read has_granted_membership_for record_read_by advance_last_read
read_mail now user mail =
    if not (has_access user Right.read_message)
    then ((user, mail), err access_denied)
    else if is_deleted mail
    then ((user, mail), err deleted)
    else if not (can_read user mail)
    then ((user, mail), err not_permitted)
    else if not (has_granted_membership_for mail.msgbase.conference_number user.conferences)
    then ((user, mail), err no_membership)
    else (
      (
        record user {
          conferences = (advance_last_read mail.msgbase mail.number now user.conferences).0;
        },
        record_read_by user.slot_number now mail,
      ),
      ok tt,
    )
