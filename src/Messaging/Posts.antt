-- ===== src/Messaging/Posts.antt =====
-- What rust/src/domain/messaging/post_mail.rs promises of a post.
use nextexpress.Prelude.{
  ℕ, ◌+◌, ◌≡◌, ◌≢◌, refl, ap, inl, inr, true, none, some, Result, ok, err, Option-cases, Bool-cases,
  arith, saturating_add,
}
use nextexpress.Conference.{MessageBaseRef, AllowedAddressing}
use nextexpress.User.{User, Right, has_access}
use nextexpress.User.Access.{record_message_posted}
use nextexpress.Messaging.{Mail, from_draft}
use nextexpress.Messaging.Store.{MailStore, MailStoreError, IsMailStore}
use nextexpress.Messaging.Posting.{
  PostMailDraft, PostMailError, refusal, mail_draft, posted, apply_post_mail, post_mail,
}

-- A mail that has been posted, and its author and store after it.
pub record IsPosted {S : Type 0} (store : MailStore S) (user user' : User) (draft : PostMailDraft)
    (s t : S) (mail : Mail) : Type 0 where
  pub is_drafted :
      mail ≡ from_draft (store.msgbase s) (store.highest_message s + 1) (mail_draft user draft)
  pub is_highest : store.highest_message t ≡ mail.number
  pub is_stored : store.load mail.number t ≡ ok (some mail)
  pub others_stay : (n : ℕ) → n ≢ mail.number → store.load n t ≡ store.load n s
  pub is_counted :
      user'.conferences.messages_posted ≡ saturating_add user.conferences.messages_posted 1

abbrev Ends :
    {S : Type 0}
    → MailStore S
    → User
    → User
    → PostMailDraft
    → S
    → S
    → Result PostMailError Mail
    → Type 0
Ends store user user' draft s t result =
    ((e : PostMailError) → result ≡ err e → (user' ≡ user) × (t ≡ s))
    × ((mail : Mail) → result ≡ ok mail → IsPosted store user user' draft s t mail)

module _ {S : Type 0} (store : MailStore S) (laws : IsMailStore store) where
  posted-Ends :
      (user user' : User) (msgbase : MessageBaseRef) (draft : PostMailDraft) (s t : S)
      (result : Result PostMailError Mail) (out : S × Result MailStoreError Mail)
      → store.insert (mail_draft user draft) s ≡ out
      → posted store user msgbase out ≡ ((user', t), result)
      → Ends store user user' draft s t result
  unfolding record_message_posted from_draft
  posted-Ends user user' msgbase draft s t result (t0, err e) i h = (
    (λ e' k. ground (arith, laws.insert_err (mail_draft user draft) s t0 e i, h)),
    λ mail k. ground (arith, h, k),
  )
  posted-Ends user user' msgbase draft s t result (t0, ok mail) i h =
      let (drafted, highest, base, loaded) = laws.insert_ok (mail_draft user draft) s t0 mail i in
      let numbered : mail.number ≡ store.highest_message s + 1 = ap (λ m. m.number) drafted in
      (
        (λ e k. ground (arith, h, k)),
        λ mail' k. record {
          is_drafted = ground (arith, drafted, h, k);
          is_highest = ground (arith, highest, numbered, h, k);
          is_stored = ground (arith, loaded, numbered, h, k);
          others_stay = λ n ne. ground (
            arith,
            laws.insert_else (mail_draft user draft) s t0 mail n i
                (ground (arith, ne, numbered, h, k)),
            h,
          );
          is_counted = ground (arith, h, k);
        },
      )

  pub post_mail_lem :
      (user user' : User) (msgbase : MessageBaseRef) (allowed : AllowedAddressing)
      (draft : PostMailDraft) (s t : S) (result : Result PostMailError Mail)
      → post_mail store user msgbase allowed draft s ≡ ((user', t), result)
      → ((e : PostMailError) → result ≡ err e → (user' ≡ user) × (t ≡ s))
        × ((mail : Mail)
            → result ≡ ok mail
            → (refusal user msgbase allowed draft ≡ none)
              × (has_access user Right.enter_message ≡ true)
              × IsPosted store user user' draft s t mail)
  unfolding post_mail apply_post_mail
  post_mail_lem user user' msgbase allowed draft s t result h =
      elim (Bool-cases (has_access user Right.enter_message)) [
        | inl allowed_in ↦ elim (Option-cases (refusal user msgbase allowed draft)) [
          | inl passes ↦
              let (fails, holds) =
                posted-Ends user user' msgbase draft s t result
                  (store.insert (mail_draft user draft) s) refl
                  (rw (apply_post_mail, passes) at (rw allowed_in at h)) in
              (fails, λ mail k. (passes, allowed_in, holds mail k))
          | inr (e, refuses) ↦ refused (rw (apply_post_mail, refuses) at (rw allowed_in at h))
        ]
        | inr denied ↦ refused (rw denied at h)
      ]
    where
      refused :
          {e : PostMailError} {p : Mail → Type 0}
          → ◌≡◌ {A = (User × S) × Result PostMailError Mail} ((user, s), err e) ((user', t), result)
          → ((e : PostMailError) → result ≡ err e → (user' ≡ user) × (t ≡ s))
            × ((mail : Mail) → result ≡ ok mail → p mail)
      refused k = ((λ e' j. ground (arith, k)), λ mail j. ground (arith, k, j))
