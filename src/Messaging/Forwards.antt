-- ===== src/Messaging/Forwards.antt =====
-- What rust/src/domain/messaging/forward_mail.rs promises.
use nextexpress.Prelude.{
  ◌≡◌, refl, ap, sym, ◌∙◌, length, length-append, ◌+◌, ◌++◌, ◌∷◌, [], codes, map_or, inl, inr, true,
  false, Option, none, some, Result, ok, err, Bool-cases, arith, ltb, ◌≤◌,
}
use nextexpress.Text.{Text}
use nextexpress.Time.{SystemTime}
use nextexpress.Conference.{MessageBaseRef, AllowedAddressing}
use nextexpress.User.{User}
use nextexpress.Messaging.{Mail, MailVisibility, is_deleted, from_draft}
use nextexpress.Messaging.Store.{MailStore, IsMailStore}
use nextexpress.Messaging.Reading.{can_read}
use nextexpress.Messaging.Posting.{selected_visibility, post_mail, max_mail_body_bytes}
use nextexpress.Messaging.Posts.{IsPosted}
use nextexpress.Messaging.Replying.{
  ForwardMailRequest, PassOnError, forward_draft, forwarded_body_len, forward_header_for, noted,
  forward_mail,
}
use nextexpress.Messaging.Passing.{Passes, gated, passed}

-- The length that the code adds up is the length of the body that it builds.
forwarded_body_len_lem :
    (rfc3339 : SystemTime → Option Text) (source : Mail) (request : ForwardMailRequest)
    → length (forward_draft rfc3339 source request).body ≡ forwarded_body_len rfc3339 source request
unfolding forward_draft forwarded_body_len
forwarded_body_len_lem rfc3339 source request =
    noted-length request.additional_note (forward_header_for rfc3339 source) source.body
  where
    noted-length :
        (note : Option Text) (header body : Text)
        → length (noted note ((header ++ b'\n' ∷ []) ++ body))
          ≡ length header + 1 + length body + map_or 0 (λ (text : Text). 4 + length text) note
    noted-length none header body = omega (
      arith,
      length-append {0} (header ++ b'\n' ∷ []) body,
      length-append {0} header (b'\n' ∷ []),
    )
    noted-length (some text) header body = omega (
      arith,
      length-append {0} (((header ++ b'\n' ∷ []) ++ body) ++ codes "\n--\n") text,
      length-append {0} ((header ++ b'\n' ∷ []) ++ body) (codes "\n--\n"),
      length-append {0} (header ++ b'\n' ∷ []) body,
      length-append {0} header (b'\n' ∷ []),
    )

forward-visibility :
    (rfc3339 : SystemTime → Option Text) (user : User) (source : Mail)
    (request : ForwardMailRequest)
    → selected_visibility user (forward_draft rfc3339 source request) ≡ MailVisibility.public
    → source.visibility ≡ MailVisibility.public
unfolding forward_draft
forward-visibility rfc3339 user source request h = ground (arith, h)

module _ {S : Type 0} (store : MailStore S) (laws : IsMailStore store) where
  forward-Passes :
      (rfc3339 : SystemTime → Option Text) (user user' : User) (msgbase : MessageBaseRef)
      (allowed : AllowedAddressing) (source : Mail) (request : ForwardMailRequest) (s t : S)
      (result : Result PassOnError Mail)
      → forward_mail store rfc3339 user msgbase allowed source request s ≡ ((user', t), result)
      → Passes store user user' source (forward_draft rfc3339 source request) s t result
        × ((mail : Mail)
            → result ≡ ok mail
            → forwarded_body_len rfc3339 source request ≤ max_mail_body_bytes)
  unfolding forward_mail
  forward-Passes rfc3339 user user' msgbase allowed source request s t result h =
      let draft = forward_draft rfc3339 source request in
      elim (Bool-cases (is_deleted source)) [
        | inl gone ↦ (
          gated store laws user user' source draft s t (rw gone at h),
          λ mail j. absurd (ground (arith, h, j, gone)),
        )
        | inr live ↦ elim (Bool-cases (can_read user source)) [
          | inr hidden ↦ (
            gated store laws user user' source draft s t (rw hidden at (rw live at h)),
            λ mail j. absurd (ground (arith, h, j, live, hidden)),
          )
          | inl seen ↦
              elim (Bool-cases
                (ltb max_mail_body_bytes (forwarded_body_len rfc3339 source request))) [
                  | inl long ↦ (
                    gated store laws user user' source draft s t
                        (rw long at (rw seen at (rw live at h))),
                    λ mail j. absurd (ground (arith, h, j, live, seen, long)),
                  )
                  | inr short ↦ (
                    passed store laws user user' msgbase allowed source draft s t result
                        (post_mail store user msgbase allowed draft s) live seen refl
                        (rw short at (rw seen at (rw live at h))),
                    λ mail j. ground (arith, short),
                  )
                ]
        ]
      ]

  -- For a store that keeps its promises, a forward is all or nothing, and it gives nothing away: an
  -- error changes neither the user nor the store, and a success takes a source that is not deleted and
  -- that the user may read, and posts the mail of the forward's draft. That mail is public only if the
  -- source is, and its body is no longer than a mail's may be.
  pub forward_mail_lem :
      (rfc3339 : SystemTime → Option Text) (user user' : User) (msgbase : MessageBaseRef)
      (allowed : AllowedAddressing) (source : Mail) (request : ForwardMailRequest) (s t : S)
      (result : Result PassOnError Mail)
      → forward_mail store rfc3339 user msgbase allowed source request s ≡ ((user', t), result)
      → ((e : PassOnError) → result ≡ err e → (user' ≡ user) × (t ≡ s))
        × ((mail : Mail)
            → result ≡ ok mail
            → (is_deleted source ≡ false)
              × (can_read user source ≡ true)
              × IsPosted store user user' (forward_draft rfc3339 source request) s t mail
              × (mail.visibility ≡ MailVisibility.public
                  → source.visibility ≡ MailVisibility.public)
              × length mail.body ≤ max_mail_body_bytes)
  unfolding from_draft
  forward_mail_lem rfc3339 user user' msgbase allowed source request s t result h =
      let (passes, fits) =
        forward-Passes rfc3339 user user' msgbase allowed source request s t result h in
      (
        passes.0,
        λ mail j.
            let (live, seen, is_posted) = passes.1 mail j in
            (
              live,
              seen,
              is_posted,
              (λ p.
                  forward-visibility rfc3339 user source request
                    (sym (ap (λ m. m.visibility) is_posted.is_drafted) ∙ p)),
              omega (
                arith,
                ap (λ m. length m.body) is_posted.is_drafted,
                forwarded_body_len_lem rfc3339 source request,
                fits mail j,
              ),
            ),
      )
