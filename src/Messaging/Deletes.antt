-- ===== src/Messaging/Deletes.antt =====
-- What rust/src/domain/messaging/delete_mail.rs promises of a deletion.
use nextexpress.Prelude.{
  ℕ, ◌≡◌, ◌≢◌, refl, subst, ◌∙◌, inl, inr, true, false, Option, none, some, [], Result, ok, err,
  Bool-cases, arith,
}
use nextexpress.User.{User}
use nextexpress.Messaging.{Mail, MailVisibility, is_deleted, soft_delete}
use nextexpress.Messaging.Kept.{soft_delete_lem}
use nextexpress.Messaging.Store.{MailStore, MailStoreError, IsMailStore}
use nextexpress.Messaging.Deleting.{DeleteMailError, can_delete, delete_mail, delete_loaded, saved}

abbrev pub tombstone : Mail → Mail
tombstone mail = record mail {
  visibility = MailVisibility.deleted;
  received_at = none;
  attachments = [];
}

-- A mail that the user has deleted from a store.
pub record IsRemoved {S : Type 0} (store : MailStore S) (user : User) (number : ℕ) (s t : S)
    : Type 0 where
  pub mail : Mail
  pub was_there : store.load number s ≡ ok (some mail)
  pub was_live : is_deleted mail ≡ false
  pub was_allowed : can_delete user mail ≡ true
  pub is_tombstone : store.load number t ≡ ok (some (tombstone mail))
  pub others_stay : (n : ℕ) → n ≢ number → store.load n t ≡ store.load n s

-- What an error of a deletion means: nothing was written, or the save of the deleted mail failed.
pub data IsFailed {S : Type 0} (store : MailStore S) (user : User) (number : ℕ) (s : S)
    : S → DeleteMailError → Type 0 where
  unreadable :
      (e : MailStoreError)
      → store.load number s ≡ err e
      → IsFailed store user number s s (DeleteMailError.store_rejects e)
  missing :
      store.load number s ≡ ok none
      → IsFailed store user number s s (DeleteMailError.not_found number)
  gone :
      (mail : Mail)
      → store.load number s ≡ ok (some mail)
      → is_deleted mail ≡ true
      → IsFailed store user number s s DeleteMailError.already_deleted
  denied :
      (mail : Mail)
      → store.load number s ≡ ok (some mail)
      → is_deleted mail ≡ false
      → can_delete user mail ≡ false
      → IsFailed store user number s s DeleteMailError.not_permitted
  unsaved :
      (mail : Mail) (t : S) (e : MailStoreError)
      → store.load number s ≡ ok (some mail)
      → is_deleted mail ≡ false
      → can_delete user mail ≡ true
      → store.save (tombstone mail) s ≡ (t, err e)
      → IsFailed store user number s t (DeleteMailError.store_rejects e)

-- What a deletion ends in.
abbrev pub IsDeletion :
    {S : Type 0} → MailStore S → User → ℕ → S → S → Result DeleteMailError (Unit {0}) → Type 0
IsDeletion store user number s t (err e) = IsFailed store user number s t e
IsDeletion store user number s t (ok done) = IsRemoved store user number s t

module _ {S : Type 0} (store : MailStore S) (laws : IsMailStore store) where
  abbrev Deletes : User → ℕ → S → Option (S × Result DeleteMailError (Unit {0})) → Type 0
  Deletes user number s out =
      (t : S) × (result : Result DeleteMailError (Unit {0})) × (out ≡ some (t, result))
      × IsDeletion store user number s t result

  refuses :
      (user : User) (number : ℕ) (s t : S) (e : DeleteMailError)
      → IsFailed store user number s t e
      → Deletes user number s (some (t, err e))
  refuses user number s t e failed = (t, err e, refl, failed)

  saved-Deletes :
      (user : User) (number : ℕ) (s : S) (mail : Mail)
      → store.load number s ≡ ok (some mail)
      → is_deleted mail ≡ false
      → can_delete user mail ≡ true
      → (out : S × Result MailStoreError (Unit {0})) → store.save (tombstone mail) s ≡ out
      → Deletes user number s (some (saved store out))
  saved-Deletes user number s mail l live may (t, err e) h =
      refuses user number s t _ (unsaved mail t e l live may h)
  saved-Deletes user number s mail l live may (t, ok done) h =
      let (loaded, highest, base) = laws.save_ok (tombstone mail) s t h in
      let numbered = laws.load_number number s mail l in
      (
        t,
        ok tt,
        refl,
        record {
          mail = mail;
          was_there = l;
          was_live = live;
          was_allowed = may;
          is_tombstone = subst (λ n. store.load n t ≡ ok (some (tombstone mail))) numbered loaded;
          others_stay = λ n ne. laws.save_else (tombstone mail) s t n h (λ e. ne (e ∙ numbered));
        },
      )

  loaded-Deletes :
      (user : User) (number : ℕ) (s : S) (r : Result MailStoreError (Option Mail))
      → store.load number s ≡ r
      → Deletes user number s (delete_loaded store user number s r)
  loaded-Deletes user number s (err e) l = refuses user number s s _ (unreadable e l)
  loaded-Deletes user number s (ok none) l = refuses user number s s _ (missing l)
  loaded-Deletes user number s (ok (some mail)) l = elim (Bool-cases (is_deleted mail)) [
    | inl dead ↦ rw dead (refuses user number s s _ (gone mail l dead))
    | inr live ↦ elim (Bool-cases (can_delete user mail)) [
      | inr refused ↦ rw live (rw refused (refuses user number s s _ (denied mail l live refused)))
      | inl may ↦
          let (mail', result, e, f, g, finished) = soft_delete_lem mail in
          let soft : soft_delete mail ≡ some (tombstone mail, ok tt) =
            ground (arith, e, finished, live) in
          rw live (
            rw may (
              rw soft
                (saved-Deletes user number s mail l live may (store.save (tombstone mail) s) refl)))
    ]
  ]

  -- For a store that keeps the promises of its trait, a deletion never panics. It is refused,
  -- with the store as it was and with the error for it, exactly where the message cannot be read, is
  -- not there, is deleted already, or may not be deleted by the user. Otherwise the one write is a
  -- save of the mail as deleted, without attachments and without a time of receipt: where that fails,
  -- its error is the result and the store is what the save left; where it succeeds, the deleted mail
  -- is in the place of the live one and every other message is as it was.
  pub delete_mail_lem :
      (user : User) (number : ℕ) (s : S)
      → (t : S) × (result : Result DeleteMailError (Unit {0})) × (delete_mail store user number s
          ≡ some (t, result))
        × IsDeletion store user number s t result
  unfolding delete_mail
  delete_mail_lem user number s = loaded-Deletes user number s (store.load number s) refl
