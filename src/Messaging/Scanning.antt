-- ===== src/Messaging/Scanning.antt =====
-- rust/src/domain/messaging/scan_mail.rs: the scan of one message base for unread mail.
use nextexpress.Prelude.{
  ℕ, zero, suc, ◌+◌, ◌-◌, Bool, true, false, not, Option, none, some, List, [], ◌∷◌, Result, ok,
  err, ltb, saturating_add, u32_max, length, min, max, if◌then◌else◌,
}
use nextexpress.Text.{Text}
use nextexpress.Time.{SystemTime}
use nextexpress.Conference.{MessageBaseRef, msgbase_ref_eq, AllScanScope}
use nextexpress.User.{User, last_scanned_for}
use nextexpress.User.Access.{has_granted_membership_for, advance_last_scanned}
use nextexpress.Messaging.{Mail, MailVisibility, BroadcastTo, is_deleted, is_unread_addressed_to}
use nextexpress.Messaging.Store.{MailStore, MailStoreError}
use nextexpress.Messaging.Reading.{can_read}

pub record MailScanRow : Type 0 where
  pub msgbase : MessageBaseRef
  pub number : ℕ
  pub visibility : MailVisibility
  pub from_name : Text
  pub to_name : Text
  pub broadcast_to : BroadcastTo
  pub subject : Text

pub record ScanResult : Type 0 where
  pub start : ℕ
  pub unread_count : ℕ
  pub first_unread_number : Option ℕ
  pub highest_message : ℕ
  pub listing : List MailScanRow

pub data ScanMailError : Type 0 where
  no_membership : ℕ → ScanMailError
  store_mismatch : MessageBaseRef → MessageBaseRef → ScanMailError
  store_fails : MailStoreError → ScanMailError

abbrev addressed : BroadcastTo → User → Mail → Bool
addressed BroadcastTo.nobody user mail = is_unread_addressed_to user.slot_number mail
addressed _ user mail = true

unfoldable pub is_unread_for : User → Mail → AllScanScope → Bool
unfolding is_deleted can_read is_unread_addressed_to
is_unread_for user mail scope =
    if is_deleted mail
    then false
    else if not (can_read user mail)
    then false
    else addressed mail.broadcast_to user mail

abbrev pub row_of : MessageBaseRef → Mail → MailScanRow
row_of msgbase mail = record {
  msgbase = msgbase;
  number = mail.number;
  visibility = mail.visibility;
  from_name = mail.from_name;
  to_name = mail.to_name;
  broadcast_to = mail.broadcast_to;
  subject = mail.subject;
}

abbrev pub first_number : List MailScanRow → Option ℕ
first_number [] = none
first_number (row ∷ rows) = some row.number

module _ {S : Type 0} (store : MailStore S) where
  abbrev pub list_row :
      Result MailStoreError (Option Mail)
      → User
      → MessageBaseRef
      → AllScanScope
      → Result MailStoreError (List MailScanRow)
      → Result MailStoreError (List MailScanRow)
  list_row (err e) user msgbase scope rest = err e
  list_row (ok none) user msgbase scope rest = rest
  list_row (ok (some mail)) user msgbase scope (err e) = err e
  list_row (ok (some mail)) user msgbase scope (ok rows) =
      if is_unread_for user mail scope then ok (row_of msgbase mail ∷ rows) else ok rows

  -- The loop over `number..=highest`, of which `count` numbers are left.
  unfoldable pub list_from :
      User → MessageBaseRef → AllScanScope → ℕ → ℕ → S → Result MailStoreError (List MailScanRow)
  unfolding is_unread_for
  list_from user msgbase scope number zero s = ok []
  list_from user msgbase scope number (suc count) s =
      list_row (store.load number s) user msgbase scope
        (list_from user msgbase scope (number + 1) count s)

  abbrev pub summary :
      ℕ → ℕ → Result MailStoreError (List MailScanRow) → Result ScanMailError ScanResult
  summary start highest (err e) = err (store_fails e)
  summary start highest (ok rows) = ok (record {
    start = start;
    unread_count = min (length rows) u32_max;
    first_unread_number = first_number rows;
    highest_message = highest;
    listing = rows;
  })

  unfoldable pub walk :
      User → MessageBaseRef → AllScanScope → ℕ → S → Result ScanMailError ScanResult
  unfolding list_from
  walk user msgbase scope start s =
      let highest = store.highest_message s in
      let first = max start 1 in
      if not (msgbase_ref_eq (store.msgbase s) msgbase)
      then err (store_mismatch (store.msgbase s) msgbase)
      else summary first highest (list_from user msgbase scope first (highest + 1 - first) s)

  abbrev counted : Result ScanMailError ScanResult → Result ScanMailError ℕ
  counted (err e) = err e
  counted (ok result) = ok result.unread_count

  unfoldable pub count_unread_for :
      User → MessageBaseRef → AllScanScope → ℕ → S → Result ScanMailError ℕ
  unfolding walk
  count_unread_for user msgbase scope start s = counted (walk user msgbase scope start s)

  abbrev first_of : Result ScanMailError ScanResult → Result ScanMailError (Option ℕ)
  first_of (err e) = err e
  first_of (ok result) = ok result.first_unread_number

  unfoldable pub first_unread_number_for :
      User → MessageBaseRef → AllScanScope → ℕ → S → Result ScanMailError (Option ℕ)
  unfolding walk
  first_unread_number_for user msgbase scope start s = first_of (walk user msgbase scope start s)

  abbrev scanned :
      User
      → MessageBaseRef
      → SystemTime
      → Result ScanMailError ScanResult
      → User × Result ScanMailError ScanResult
  scanned user msgbase now (err e) = (user, err e)
  scanned user msgbase now (ok result) = (
    record user {
      conferences = (advance_last_scanned msgbase result.highest_message now user.conferences).0;
    },
    ok result,
  )

  abbrev pub first_to_scan : User → MessageBaseRef → ℕ → ℕ
  first_to_scan user msgbase from_message =
      if ltb 0 from_message then from_message else saturating_add (last_scanned_for msgbase user) 1

  unfoldable pub scan_mail :
      User
      → MessageBaseRef
      → AllScanScope
      → ℕ
      → SystemTime
      → S
      → User × Result ScanMailError ScanResult
  unfolding walk has_granted_membership_for advance_last_scanned last_scanned_for
  scan_mail user msgbase scope from_message now s =
      if not (msgbase_ref_eq (store.msgbase s) msgbase)
      then (user, err (store_mismatch (store.msgbase s) msgbase))
      else if not (has_granted_membership_for msgbase.conference_number user.conferences)
      then (user, err (no_membership msgbase.conference_number))
      else scanned user msgbase now
          (walk user msgbase scope (first_to_scan user msgbase from_message) s)
