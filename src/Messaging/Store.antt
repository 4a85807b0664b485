-- ===== src/Messaging/Store.antt =====
-- rust/src/domain/messaging/mail_store.rs: the port that the mail rules use. An adapter is a
-- parameter of the model, with what the trait's documentation promises of it.
use nextexpress.Prelude.{
  ℕ, ◌+◌, ◌≡◌, ◌≢◌, Option, none, some, Result, ok, err, zero, suc, saturating_add, if◌then◌else◌,
}
use nextexpress.Conference.{MessageBaseRef}
use nextexpress.Messaging.{Mail, MailDraft, from_draft, is_deleted}

pub data MailStoreError : Type 0 where
  backend : MailStoreError
  msgbase_mismatch : MessageBaseRef → MessageBaseRef → MailStoreError
  message_missing : ℕ → MessageBaseRef → MailStoreError

-- `trait MailStore`: its operations on the state of an adapter.
pub record MailStore (S : Type 0) : Type 1 where
  pub highest_message : S → ℕ
  pub msgbase : S → MessageBaseRef
  pub insert : MailDraft → S → S × Result MailStoreError Mail
  pub load : ℕ → S → Result MailStoreError (Option Mail)
  pub save : Mail → S → S × Result MailStoreError (Unit {0})

-- What the documentation of the trait promises: a load gives the message of the number; an insert
-- that succeeds allocates the next number, makes the mail of the draft there and changes no other
-- message; an insert is atomic, so one that fails changes nothing; a save that succeeds replaces the
-- message of the mail's number and no other. Of a save that fails nothing is promised.
pub record IsMailStore {S : Type 0} (store : MailStore S) : Type 0 where
  pub load_number :
      (n : ℕ) (s : S) (mail : Mail) → store.load n s ≡ ok (some mail) → mail.number ≡ n
  pub insert_ok :
      (draft : MailDraft) (s t : S) (mail : Mail)
      → store.insert draft s ≡ (t, ok mail)
      → (mail ≡ from_draft (store.msgbase s) (store.highest_message s + 1) draft)
        × (store.highest_message t ≡ store.highest_message s + 1)
        × (store.msgbase t ≡ store.msgbase s)
        × (store.load (store.highest_message s + 1) t ≡ ok (some mail))
  pub insert_else :
      (draft : MailDraft) (s t : S) (mail : Mail) (n : ℕ)
      → store.insert draft s ≡ (t, ok mail)
      → n ≢ store.highest_message s + 1
      → store.load n t ≡ store.load n s
  pub insert_err :
      (draft : MailDraft) (s t : S) (e : MailStoreError) → store.insert draft s ≡ (t, err e) → t ≡ s
  pub save_ok :
      (mail : Mail) (s t : S)
      → store.save mail s ≡ (t, ok tt)
      → (store.load mail.number t ≡ ok (some mail))
        × (store.highest_message t ≡ store.highest_message s)
        × (store.msgbase t ≡ store.msgbase s)
  pub save_else :
      (mail : Mail) (s t : S) (n : ℕ)
      → store.save mail s ≡ (t, ok tt)
      → n ≢ mail.number
      → store.load n t ≡ store.load n s

module _ {S : Type 0} (store : MailStore S) where
  abbrev pub lowest_at :
      Result MailStoreError (Option Mail) → ℕ → Result MailStoreError ℕ → Result MailStoreError ℕ
  lowest_at (err e) number rest = err e
  lowest_at (ok none) number rest = rest
  lowest_at (ok (some mail)) number rest = if is_deleted mail then rest else ok number

  -- The loop over `number..=highest`, of which `count` numbers are left.
  unfoldable pub lowest_from : ℕ → ℕ → S → Result MailStoreError ℕ
  unfolding is_deleted
  lowest_from number zero s = ok (saturating_add (store.highest_message s) 1)
  lowest_from number (suc count) s =
      lowest_at (store.load number s) number (lowest_from (number + 1) count s)

  unfoldable pub lowest_undeleted_message : S → Result MailStoreError ℕ
  unfolding lowest_from
  lowest_undeleted_message s = lowest_from 1 (store.highest_message s) s
