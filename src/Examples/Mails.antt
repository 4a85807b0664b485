-- ===== src/Examples/Mails.antt =====
-- The theorems on mail, at a store of one message.
use nextexpress.Prelude.{
  ℕ, ◌≡◌, refl, true, false, Option, none, some, [], ◌∷◌, Result, ok, codes, max, if◌then◌else◌,
  ◌==◌,
}
use nextexpress.Conference.{AllowedAddressing, AllScanScope, MessageBaseRef, msgbase_ref_eq}
use nextexpress.User.{User}
use nextexpress.Messaging.{
  Mail, MailDraft, MailError, MailVisibility, BroadcastTo, from_draft, to_draft, transition_to,
  soft_delete, record_read_by, mark_received, carry_state_from, is_deleted,
}
use nextexpress.Messaging.Kept.{IsKept, IsKept-operations}
use nextexpress.Messaging.Reading.{read_mail}
use nextexpress.Messaging.Reads.{may_read, succeeds, mail_after, IsRead, read_mail_lem}
use nextexpress.Messaging.Posting.{PostMailDraft, PostMailError, post_mail}
use nextexpress.Messaging.Deleting.{DeleteMailError, delete_mail}
use nextexpress.Messaging.Deletes.{IsDeletion, delete_mail_lem}
use nextexpress.Messaging.Moving.{move_mail}
use nextexpress.Messaging.Moves.{Moves, move_mail_lem}
use nextexpress.Messaging.Scanning.{ScanResult, walk, row_of}
use nextexpress.Messaging.Store.{lowest_undeleted_message}
use nextexpress.Messaging.Scans.{IsWalk, walk_lem}
use nextexpress.Examples.Fixtures.{alice, Shelf, shelf_store, shelf_store-IsMailStore}

abbrev pub main_base : MessageBaseRef
main_base = record { conference_number = 2; msgbase_number = 1 }

abbrev other_base : MessageBaseRef
other_base = record { conference_number = 2; msgbase_number = 2 }

abbrev pub note : Mail
note = record {
  msgbase = main_base;
  number = 1;
  visibility = MailVisibility.private;
  from_name = codes "bob";
  to_name = codes "alice";
  broadcast_to = BroadcastTo.nobody;
  subject = codes "hi";
  posted_at = 5;
  received_at = none;
  author_slot = 3;
  addressee_slot = some 7;
  body = codes "hello";
  attachments = record { file_name = codes "f"; file_size = 9 } ∷ [];
}

abbrev mails_with_note : ℕ → Option Mail
mails_with_note n = if n == 1 then some note else none

abbrev no_mails : ℕ → Option Mail
no_mails n = none

abbrev pub shelf : Shelf
shelf = record { highest = 1; base = main_base; mails = mails_with_note }

abbrev empty_shelf : Shelf
empty_shelf = record { highest = 0; base = other_base; mails = no_mails }

abbrev reply : PostMailDraft
reply = record {
  to_name = codes "bob";
  broadcast_to = BroadcastTo.nobody;
  addressee_slot = some 3;
  from_name = codes "alice";
  subject = codes "re: hi";
  body = codes "hello";
  private = true;
  posted_at = 6;
}

not_deleted : is_deleted note ≡ false
unfolding is_deleted
not_deleted = refl

abbrev posted_state : (User × Shelf) × Result PostMailError Mail
posted_state = post_mail shelf_store alice main_base AllowedAddressing.any reply shelf

delete_mail_lem_example :
    (t : Shelf) × (result : Result DeleteMailError (Unit {0})) × (delete_mail shelf_store alice 1
        shelf
      ≡ some (t, result))
    × IsDeletion shelf_store alice 1 shelf t result
delete_mail_lem_example = delete_mail_lem shelf_store shelf_store-IsMailStore alice 1 shelf

move_mail_lem_example :
    Moves shelf_store shelf_store shelf_store-IsMailStore shelf_store-IsMailStore alice 1 note shelf
      empty_shelf
      (move_mail shelf_store shelf_store alice 1 shelf empty_shelf)
move_mail_lem_example =
    move_mail_lem shelf_store shelf_store shelf_store-IsMailStore shelf_store-IsMailStore alice 1
      shelf empty_shelf note refl not_deleted

abbrev scanned : ScanResult
scanned = record {
  start = 1;
  unread_count = 1;
  first_unread_number = some 1;
  highest_message = 1;
  listing = row_of main_base note ∷ [];
}

walked : walk shelf_store alice main_base AllScanScope.local 0 shelf ≡ ok scanned
unfolding walk
walked = refl

walk_lem_example :
    (msgbase_ref_eq main_base main_base ≡ true)
    × IsWalk shelf_store shelf_store-IsMailStore alice main_base AllScanScope.local shelf
        (max 0 1)
        scanned
walk_lem_example =
    walk_lem shelf_store shelf_store-IsMailStore alice main_base AllScanScope.local shelf 0 scanned
      walked

read_mail_lem_example :
    let after = (read_mail 9 alice note).0 in
    (succeeds (read_mail 9 alice note).1 ≡ may_read alice note)
    × (may_read alice note ≡ false → (after.0 ≡ alice) × (after.1 ≡ note))
    × (may_read alice note ≡ true
        → (after.1 ≡ mail_after 7 9 note note.received_at note.addressee_slot)
          × (after.0 ≡ record alice { conferences = after.0.conferences })
          × IsRead note 9 alice.conferences after.0.conferences)
read_mail_lem_example = read_mail_lem 9 alice note

abbrev draft_of_note : MailDraft
draft_of_note = to_draft note

note-IsKept : IsKept note
unfolding is_deleted
note-IsKept h = refl

IsKept-operations_example :
    IsKept (from_draft main_base 4 draft_of_note)
    × IsKept (transition_to MailVisibility.deleted note).0
    × ((deleted : Mail) (result : Result MailError (Unit {0}))
        → soft_delete note ≡ some (deleted, result)
        → IsKept deleted)
    × IsKept (record_read_by 7 9 note)
    × IsKept (mark_received 9 note).0
    × IsKept (carry_state_from note (from_draft main_base 4 (to_draft note)))
IsKept-operations_example =
    IsKept-operations note main_base 4 7 9 draft_of_note MailVisibility.deleted note-IsKept

lowest_found : lowest_undeleted_message shelf_store shelf ≡ ok 1
unfolding lowest_undeleted_message
lowest_found = refl
