-- ===== src/Messaging/Deleting.antt =====
-- rust/src/domain/messaging/delete_mail.rs and edit_mail_header.rs. `none` is a panic.
use nextexpress.Prelude.{
  ℕ, Bool, ◌||◌, not, Option, none, some, Result, ok, err, ◌==◌, leb, if◌then◌else◌,
}
use nextexpress.Text.{Text}
use nextexpress.User.{User, is_sysop}
use nextexpress.Messaging.{
  Mail, MailError, is_deleted, is_slot, soft_delete, set_subject, set_addressee,
}
use nextexpress.Messaging.Store.{MailStore, MailStoreError}

pub data DeleteMailError : Type 0 where
  not_found : ℕ → DeleteMailError
  already_deleted not_permitted : DeleteMailError
  store_rejects : MailStoreError → DeleteMailError

unfoldable pub can_delete : User → Mail → Bool
unfolding is_sysop
can_delete user mail =
    is_sysop user
    || leb 210 user.account.access_level
    || mail.author_slot == user.slot_number
    || is_slot user.slot_number mail.addressee_slot

pub data EditMailHeaderError : Type 0 where
  not_found : ℕ → EditMailHeaderError
  not_permitted : EditMailHeaderError
  store_rejects : MailStoreError → EditMailHeaderError

unfoldable pub can_edit_header : User → Bool
unfolding is_sysop
can_edit_header user = is_sysop user || leb 210 user.account.access_level

module _ {S : Type 0} (store : MailStore S) where
  abbrev pub saved : S × Result MailStoreError (Unit {0}) → S × Result DeleteMailError (Unit {0})
  saved (s, ok done) = (s, ok tt)
  saved (s, err e) = (s, err (DeleteMailError.store_rejects e))

  abbrev pub save_deleted :
      S
      → Option (Mail × Result MailError (Unit {0}))
      → Option (S × Result DeleteMailError (Unit {0}))
  save_deleted s (some (mail, ok done)) = some (saved (store.save mail s))
  save_deleted s (some (mail, err e)) = none
  save_deleted s none = none

  abbrev pub delete_loaded :
      User
      → ℕ
      → S
      → Result MailStoreError (Option Mail)
      → Option (S × Result DeleteMailError (Unit {0}))
  delete_loaded user number s (err e) = some (s, err (DeleteMailError.store_rejects e))
  delete_loaded user number s (ok none) = some (s, err (DeleteMailError.not_found number))
  delete_loaded user number s (ok (some mail)) =
      if is_deleted mail
      then some (s, err DeleteMailError.already_deleted)
      else if not (can_delete user mail)
      then some (s, err DeleteMailError.not_permitted)
      else save_deleted s (soft_delete mail)

  unfoldable pub delete_mail : User → ℕ → S → Option (S × Result DeleteMailError (Unit {0}))
  unfolding is_deleted can_delete soft_delete
  delete_mail user number s = delete_loaded user number s (store.load number s)

  abbrev with_subject : Option Text → Mail → Mail
  with_subject none mail = mail
  with_subject (some subject) mail = set_subject subject mail

  abbrev with_addressee : Option (Text × Option ℕ) → Mail → Mail
  with_addressee none mail = mail
  with_addressee (some (to_name, slot)) mail = set_addressee to_name slot mail

  abbrev edited : S × Result MailStoreError (Unit {0}) → S × Result EditMailHeaderError (Unit {0})
  edited (s, ok done) = (s, ok tt)
  edited (s, err e) = (s, err (EditMailHeaderError.store_rejects e))

  abbrev edit_loaded :
      ℕ
      → Option Text
      → Option (Text × Option ℕ)
      → S
      → Result MailStoreError (Option Mail)
      → S × Result EditMailHeaderError (Unit {0})
  edit_loaded number subject to s (err e) = (s, err (EditMailHeaderError.store_rejects e))
  edit_loaded number subject to s (ok none) = (s, err (EditMailHeaderError.not_found number))
  edit_loaded number subject to s (ok (some mail)) =
      edited (store.save (with_addressee to (with_subject subject mail)) s)

  unfoldable pub edit_mail_header :
      User
      → ℕ
      → Option Text
      → Option (Text × Option ℕ)
      → S
      → S × Result EditMailHeaderError (Unit {0})
  unfolding can_edit_header set_subject set_addressee
  edit_mail_header user number subject to s =
      if not (can_edit_header user)
      then (s, err EditMailHeaderError.not_permitted)
      else edit_loaded number subject to s (store.load number s)
