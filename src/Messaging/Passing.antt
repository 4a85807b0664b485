-- ===== src/Messaging/Passing.antt =====
-- What rust/src/domain/messaging/reply_to_mail.rs promises, and what it shares with forward_mail.rs.
use nextexpress.Prelude.{◌≡◌, refl, subst, true, false, Result, ok, err, arith}
use nextexpress.Conference.{MessageBaseRef, AllowedAddressing}
use nextexpress.User.{User}
use nextexpress.Messaging.{Mail, is_deleted}
use nextexpress.Messaging.Store.{MailStore, IsMailStore}
use nextexpress.Messaging.Reading.{can_read}
use nextexpress.Messaging.Posting.{PostMailDraft, PostMailError, post_mail}
use nextexpress.Messaging.Posts.{IsPosted, post_mail_lem}
use nextexpress.Messaging.Replying.{PassOnError, as_post}

-- A mail that has been passed on, or an error that has changed nothing.
abbrev pub Passes :
    {S : Type 0}
    → MailStore S
    → User
    → User
    → Mail
    → PostMailDraft
    → S
    → S
    → Result PassOnError Mail
    → Type 0
Passes store user user' source draft s t result =
    ((e : PassOnError) → result ≡ err e → (user' ≡ user) × (t ≡ s))
    × ((mail : Mail)
        → result ≡ ok mail
        → (is_deleted source ≡ false)
          × (can_read user source ≡ true)
          × IsPosted store user user' draft s t mail)

module _ {S : Type 0} (store : MailStore S) (laws : IsMailStore store) where
  pub gated :
      (user user' : User) (source : Mail) (draft : PostMailDraft) (s t : S) {e : PassOnError}
      {result : Result PassOnError Mail}
      → ◌≡◌ {A = (User × S) × Result PassOnError Mail} ((user, s), err e) ((user', t), result)
      → Passes store user user' source draft s t result
  gated user user' source draft s t h =
      ((λ e' j. ground (arith, h)), λ mail j. ground (arith, h, j))

  carried :
      (user u user' : User) (draft : PostMailDraft) (s s' t : S) (mail mail' : Mail)
      → u ≡ user'
      → s' ≡ t
      → mail ≡ mail'
      → IsPosted store user u draft s s' mail
      → IsPosted store user user' draft s t mail'
  carried user u user' draft s s' t mail mail' e f g p =
      subst (λ m. IsPosted store user user' draft s t m) g
        (subst (λ x. IsPosted store user user' draft s x mail) f
          (subst (λ x. IsPosted store user x draft s s' mail) e p))

  pub passed :
      (user user' : User) (msgbase : MessageBaseRef) (allowed : AllowedAddressing) (source : Mail)
      (draft : PostMailDraft) (s t : S) (result : Result PassOnError Mail)
      (posted : (User × S) × Result PostMailError Mail)
      → is_deleted source ≡ false
      → can_read user source ≡ true
      → post_mail store user msgbase allowed draft s ≡ posted
      → as_post posted ≡ ((user', t), result)
      → Passes store user user' source draft s t result
  passed user user' msgbase allowed source draft s t result ((u, s'), ok mail) live seen p h =
      let (fails, holds) = post_mail_lem store laws user u msgbase allowed draft s s' (ok mail) p in
      (
        (λ e j. ground (arith, h, j)),
        λ mail' j. (
          live,
          seen,
          carried user u user' draft s s' t mail mail' (ground (arith, h)) (ground (arith, h))
              (ground (arith, h, j)) (holds mail refl).2,
        ),
      )
  passed user user' msgbase allowed source draft s t result ((u, s'), err e) live seen p h =
      let (fails, holds) = post_mail_lem store laws user u msgbase allowed draft s s' (err e) p in
      ((λ e' j. ground (arith, h, fails e refl)), λ mail' j. ground (arith, h, j))
