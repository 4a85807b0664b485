-- ===== src/Messaging/Moves.antt =====
-- What rust/src/domain/messaging/move_mail.rs promises of a move.
use nextexpress.Prelude.{
  ℕ, ◌+◌, ◌≡◌, ◌≢◌, refl, subst, ap, sym, ◌∙◌, true, false, Option, some, Result, ok, err, arith,
  Bool-cases, inl, inr,
}
use nextexpress.Conference.{msgbase_ref_eq}
use nextexpress.User.{User}
use nextexpress.Messaging.{Mail, is_deleted, soft_delete, to_draft, from_draft, carry_state_from}
use nextexpress.Messaging.Kept.{soft_delete_lem}
use nextexpress.Messaging.Deletes.{tombstone}
use nextexpress.Messaging.Store.{MailStore, MailStoreError, IsMailStore}
use nextexpress.Messaging.Moving.{
  MoveMailError, Moved, can_move, move_mail, inserted, copied, finished,
}

-- A mail that has gone from one store to the other.
pub record IsMoved {S T : Type 0} (source : MailStore S) (target : MailStore T) (number : ℕ)
    (s s' : S) (t t' : T) (original copy : Mail) : Type 0 where
  pub is_copy :
      copy ≡ record original { msgbase = target.msgbase t; number = target.highest_message t + 1 }
  pub is_stored : target.load copy.number t' ≡ ok (some copy)
  pub is_tombstone : source.load number s' ≡ ok (some (tombstone original))
  pub sources_stay : (n : ℕ) → n ≢ number → source.load n s' ≡ source.load n s
  pub targets_stay : (n : ℕ) → n ≢ copy.number → target.load n t' ≡ target.load n t

-- The mail as it goes over to a target.
abbrev pub copy_in : {T : Type 0} → MailStore T → T → Mail → Mail
copy_in target t original = record original {
  msgbase = target.msgbase t;
  number = target.highest_message t + 1;
}

-- What an error of a move means, by the step that stopped it. The source is written in the last
-- step alone, when the mail is in the target.
pub data IsStopped {S T : Type 0} (source : MailStore S) (target : MailStore T) (user : User)
    (original : Mail) (s : S) (t : T) : S → T → MoveMailError → Type 0 where
  denied :
      can_move user ≡ false
      → IsStopped source target user original s t s t MoveMailError.not_permitted
  at_home :
      can_move user ≡ true
      → msgbase_ref_eq (source.msgbase s) (target.msgbase t) ≡ true
      → IsStopped source target user original s t s t MoveMailError.same_msgbase
  not_inserted :
      (t' : T) (e : MailStoreError)
      → target.insert (to_draft original) t ≡ (t', err e)
      → t' ≡ t
      → IsStopped source target user original s t s t' (MoveMailError.store_rejects e)
  without_state :
      (mail : Mail) (t' t'' : T) (e : MailStoreError)
      → target.insert (to_draft original) t ≡ (t', ok mail)
      → target.save (copy_in target t original) t' ≡ (t'', err e)
      → IsStopped source target user original s t s t'' (MoveMailError.store_rejects e)
  still_there :
      (s' : S) (t' : T) (e : MailStoreError)
      → target.load (target.highest_message t + 1) t' ≡ ok (some (copy_in target t original))
      → ((n : ℕ) → n ≢ target.highest_message t + 1 → target.load n t' ≡ target.load n t)
      → source.save (tombstone original) s ≡ (s', err e)
      → IsStopped source target user original s t s' t' (MoveMailError.store_rejects e)

-- What a move of a live mail ends in.
abbrev pub IsMove :
    {S T : Type 0} (source : MailStore S) (target : MailStore T) (user : User) (number : ℕ)
    (original : Mail) (s : S) (t : T)
    → (S × T) × Result MoveMailError Mail
    → Type 0
IsMove source target user number original s t ((s', t'), err e) =
    IsStopped source target user original s t s' t' e
IsMove source target user number original s t ((s', t'), ok copy) =
    IsMoved source target number s s' t t' original copy

module _ {S T : Type 0} (source : MailStore S) (target : MailStore T)
    (source_laws : IsMailStore source) (target_laws : IsMailStore target) where
  abbrev pub Moves : User → ℕ → Mail → S → T → Option (Moved source target) → Type 0
  Moves user number original s t out =
      (ended : Moved source target) × (out ≡ some ended)
      × IsMove source target user number original s t ended

  stops :
      (user : User) (number : ℕ) (original : Mail) (s s' : S) (t t' : T) (e : MoveMailError)
      → IsStopped source target user original s t s' t' e
      → Moves user number original s t (some ((s', t'), err e))
  stops user number original s s' t t' e stopped = (((s', t'), err e), refl, stopped)

  finished-Moves :
      (user : User) (number : ℕ) (original copy : Mail) (s : S) (t t' : T)
      → source.load number s ≡ ok (some original)
      → copy ≡ copy_in target t original
      → target.load copy.number t' ≡ ok (some copy)
      → ((n : ℕ) → n ≢ copy.number → target.load n t' ≡ target.load n t)
      → (out : S × Result MailStoreError (Unit {0})) → source.save (tombstone original) s ≡ out
      → Moves user number original s t (some (finished source target copy t' out))
  finished-Moves user number original copy s t t' l c stored stay (s', err e) h =
      stops user number original s s' t t' _ (
        still_there s' t' e (subst (λ m. target.load m.number t' ≡ ok (some m)) c stored)
          (λ n ne. stay n (λ k. ne (k ∙ ap (λ m. m.number) c))) h)
  finished-Moves user number original copy s t t' l c stored stay (s', ok done) h =
      let (loaded, highest, base) = source_laws.save_ok (tombstone original) s s' h in
      let numbered = source_laws.load_number number s original l in
      (
        ((s', t'), ok copy),
        refl,
        record {
          is_copy = c;
          is_stored = stored;
          is_tombstone =
              subst (λ n. source.load n s' ≡ ok (some (tombstone original))) numbered loaded;
          sources_stay =
              λ n ne. source_laws.save_else (tombstone original) s s' n h (λ e. ne (e ∙ numbered));
          targets_stay = stay;
        },
      )

  copied-Moves :
      (user : User) (number : ℕ) (original mail : Mail) (s : S) (t t1 : T)
      → source.load number s ≡ ok (some original)
      → is_deleted original ≡ false
      → target.insert (to_draft original) t ≡ (t1, ok mail)
      → (out : T × Result MailStoreError (Unit {0}))
      → target.save (carry_state_from original mail) t1 ≡ out
      → Moves user number original s t
          (copied source target original (carry_state_from original mail) s out)
  unfolding carry_state_from from_draft to_draft
  copied-Moves user number original mail s t t1 l live i (t2, err e) h =
      let (drafted, highest, base, there) = target_laws.insert_ok (to_draft original) t t1 mail i in
      stops user number original s s t t2 _ (
        without_state mail t1 t2 e i
          (subst (λ m. target.save m t1 ≡ (t2, err e)) (ap (carry_state_from original) drafted) h))
  copied-Moves user number original mail s t t1 l live i (t2, ok done) h =
      let (drafted, highest, base, there) = target_laws.insert_ok (to_draft original) t t1 mail i in
      let copy = carry_state_from original mail in
      let is_copy : copy ≡ copy_in target t original = ap (carry_state_from original) drafted in
      let (stored, highest', base') = target_laws.save_ok copy t1 t2 h in
      let (mail', result, e, f, g, end) = soft_delete_lem original in
      let soft : soft_delete original ≡ some (tombstone original, ok tt) =
        ground (arith, e, end, live) in
      let numbered : copy.number ≡ target.highest_message t + 1 = ap (λ m. m.number) is_copy in
      rw soft (
        finished-Moves user number original copy s t t2 l is_copy stored
          (λ n ne.
            target_laws.save_else copy t1 t2 n h ne
            ∙ target_laws.insert_else (to_draft original) t t1 mail n i
                (λ k. ne (k ∙ sym numbered)))
          (source.save (tombstone original) s) refl)

  inserted-Moves :
      (user : User) (number : ℕ) (original : Mail) (s : S) (t : T)
      → source.load number s ≡ ok (some original)
      → is_deleted original ≡ false
      → (out : T × Result MailStoreError Mail) → target.insert (to_draft original) t ≡ out
      → Moves user number original s t (inserted source target original s out)
  inserted-Moves user number original s t l live (t1, err e) i =
      stops user number original s s t t1 _
        (not_inserted t1 e i (target_laws.insert_err (to_draft original) t t1 e i))
  inserted-Moves user number original s t l live (t1, ok mail) i =
      copied-Moves user number original mail s t t1 l live i
        (target.save (carry_state_from original mail) t1) refl

  -- For stores that keep the promises of their trait, a move of a live mail never panics. A success
  -- leaves the mail, its time of receipt and its attachments with it, in the target under its next
  -- number, a deleted mail without attachments in the source, and all other messages of both as they
  -- were. An error names the step that stopped the move: a refusal or a failed insert leaves both
  -- stores as they were; a failed save of the copy's state leaves the source as it was; a failed save
  -- of the deleted original leaves the whole mail in the target, and every other message of the
  -- target as it was.
  pub move_mail_lem :
      (user : User) (number : ℕ) (s : S) (t : T) (original : Mail)
      → source.load number s ≡ ok (some original)
      → is_deleted original ≡ false
      → Moves user number original s t (move_mail source target user number s t)
  unfolding move_mail
  move_mail_lem user number s t original l live = elim (Bool-cases (can_move user)) [
    | inr refused ↦ rw refused (stops user number original s s t t _ (denied refused))
    | inl may ↦ elim (Bool-cases (msgbase_ref_eq (source.msgbase s) (target.msgbase t))) [
      | inl same ↦ rw may (rw same (stops user number original s s t t _ (at_home may same)))
      | inr other ↦ rw may (
          rw other (
            rw l (
              inserted-Moves user number original s t l live (target.insert (to_draft original) t)
                refl)))
    ]
  ]
