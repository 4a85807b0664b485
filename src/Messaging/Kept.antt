-- ===== src/Messaging/Kept.antt =====
-- About deleted mails of rust/src/domain/messaging/mail.rs.
use nextexpress.Prelude.{◌≡◌, ℕ, refl, Bool, true, false, none, some, [], Result, ok, err, arith}
use nextexpress.Time.{SystemTime}
use nextexpress.Conference.{MessageBaseRef}
use nextexpress.Messaging.{
  Mail, MailDraft, MailVisibility, MailError, already_deleted, from_draft, to_draft,
  carry_state_from, transition_to, soft_delete, record_read_by, mark_received, is_deleted,
}

-- The invariant DeletedMessagesHaveNoActiveReceived.
abbrev pub IsKept : Mail → Type 0
IsKept mail = is_deleted mail ≡ true → mail.received_at ≡ none

-- Deletion ends in a deleted mail without attachments, and fails only on a mail that is deleted
-- already, which stays as it is: the `expect` on the transition does not fail.
pub soft_delete_lem :
    (mail : Mail)
    → (mail' : Mail) × (result : Result MailError (Unit {0})) × (soft_delete mail
        ≡ some (mail', result))
      × (is_deleted mail' ≡ true)
      × ((is_deleted mail ≡ true → (mail' ≡ mail) × (result ≡ err already_deleted)))
      × ((is_deleted mail ≡ false
          → (result ≡ ok tt)
            × (mail' ≡ record mail {
              visibility = MailVisibility.deleted;
              received_at = none;
              attachments = [];
            })))
unfolding soft_delete
soft_delete_lem mail = split (is_deleted mail) refl
  where
    split :
        (b : Bool)
        → is_deleted mail ≡ b
        → (mail' : Mail) × (result : Result MailError (Unit {0})) × (soft_delete mail
            ≡ some (mail', result))
          × (is_deleted mail' ≡ true)
          × ((is_deleted mail ≡ true → (mail' ≡ mail) × (result ≡ err already_deleted)))
          × ((is_deleted mail ≡ false
              → (result ≡ ok tt)
                × (mail' ≡ record mail {
                  visibility = MailVisibility.deleted;
                  received_at = none;
                  attachments = [];
                })))
    split true e = (
      mail,
      err already_deleted,
      ground (arith, e),
      e,
      (λ h. (refl, refl)),
      λ h. ground (arith, e, h),
    )
    split false e = (
      record mail { visibility = MailVisibility.deleted; received_at = none; attachments = [] },
      ok tt,
      ground (arith, e),
      refl,
      (λ h. ground (arith, e, h)),
      λ h. (refl, refl),
    )

-- Every operation on a mail keeps the invariant that a deleted mail is not marked as received: a
-- mail made of a draft has it, and a change of visibility, a deletion, a reading, a mark, and the
-- copy that a move makes of a mail keep it.
pub IsKept-operations :
    (mail : Mail) (msgbase : MessageBaseRef) (number slot : ℕ) (now : SystemTime)
    (draft : MailDraft) (target : MailVisibility)
    → IsKept mail
    → IsKept (from_draft msgbase number draft)
      × IsKept (transition_to target mail).0
      × ((deleted : Mail) (result : Result MailError (Unit {0}))
          → soft_delete mail ≡ some (deleted, result)
          → IsKept deleted)
      × IsKept (record_read_by slot now mail)
      × IsKept (mark_received now mail).0
      × IsKept (carry_state_from mail (from_draft msgbase number (to_draft mail)))
unfolding from_draft transition_to soft_delete record_read_by mark_received carry_state_from
    to_draft is_deleted
IsKept-operations mail msgbase number slot now draft target v = (
  ground arith,
  ground arith,
  λ deleted result h k. ground arith,
  ground arith,
  ground arith,
  ground arith,
)
