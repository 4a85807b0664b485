-- ===== src/Messaging/Lowest.antt =====
-- What the default method of rust/src/domain/messaging/mail_store.rs promises of its walk.
use nextexpress.Prelude.{
  ℕ, zero, suc, ◌+◌, ◌≡◌, ◌≤◌, ◌<◌, refl, sym, ap, ◌∙◌, subst, ◌⊎◌, inl, inr, true, false, Option,
  none, some, Result, ok, err, Bool-cases, arith, saturating_add,
}
use nextexpress.Messaging.{Mail, is_deleted}
use nextexpress.Messaging.Store.{
  MailStore, MailStoreError, lowest_at, lowest_from, lowest_undeleted_message,
}

module _ {S : Type 0} (store : MailStore S) (s : S) where
  -- A number that has no mail, or a deleted one.
  abbrev pub IsVacant : ℕ → Type 0
  IsVacant n = (mail : Mail) → store.load n s ≡ ok (some mail) → is_deleted mail ≡ true

  -- A number that has a mail that is not deleted.
  abbrev pub IsLive : ℕ → Type 0
  IsLive n = (mail : Mail) × (store.load n s ≡ ok (some mail)) × (is_deleted mail ≡ false)

  -- The first live number from a number on, or the end where there is none before `past`.
  abbrev IsLowest : ℕ → ℕ → ℕ → Type 0
  IsLowest first past n =
      ((i : ℕ) → first ≤ i → i < past → i < n → IsVacant i)
      × ((IsLive n × (n < past))
          ⊎ ((n ≡ saturating_add (store.highest_message s) 1)
              × ((i : ℕ) → first ≤ i → i < past → IsVacant i)))

  from_or_past : (a n : ℕ) → a ≤ n → (n ≡ a) ⊎ (a + 1 ≤ n)
  from_or_past a n h = ground arith

  later-IsLowest :
      (first past n : ℕ) → IsVacant first → IsLowest (first + 1) past n → IsLowest first past n
  later-IsLowest first past n vacant (below, ends) = (
    (λ i h k l. elim (from_or_past first i h) [
      | inl here ↦ subst IsVacant (sym here) vacant
      | inr later ↦ below i later k l
    ]),
    elim ends [
      | inl live ↦ inl live
      | inr (e, all) ↦ inr (
        e,
        λ i h k. elim (from_or_past first i h) [
          | inl here ↦ subst IsVacant (sym here) vacant
          | inr later ↦ all i later k
        ],
      )
    ],
  )

  shown : {a b : ℕ} → ◌≡◌ {A = Result MailStoreError ℕ} (ok a) (ok b) → a ≡ b
  shown e = cc

  load-IsLowest :
      (first past n : ℕ) (r : Result MailStoreError (Option Mail)) (rest : Result MailStoreError ℕ)
      → first < past
      → store.load first s ≡ r
      → (rest ≡ ok n → IsLowest (first + 1) past n)
      → lowest_at store r first rest ≡ ok n
      → IsLowest first past n
  load-IsLowest first past n (err e) rest h l v k = absurd (ground (arith, k))
  load-IsLowest first past n (ok none) rest h l v k =
      later-IsLowest first past n (λ mail l'. absurd (ground (arith, l, l'))) (v k)
  load-IsLowest first past n (ok (some mail)) rest h l v k = elim (Bool-cases (is_deleted mail)) [
    | inl gone ↦
        later-IsLowest first past n (λ mail' l'. ap is_deleted (same mail' l') ∙ gone)
          (v (rw gone at k))
    | inr live ↦
        subst (IsLowest first past) (shown (rw live at k))
          ((λ i h' k' l'. absurd (omega arith)), inl ((mail, l, live), h))
  ]
    where
      same : (mail' : Mail) → store.load first s ≡ ok (some mail') → mail' ≡ mail
      same mail' l' = ground (arith, l, l')

  lowest_from-IsLowest :
      (first count n : ℕ)
      → lowest_from store first count s ≡ ok n
      → IsLowest first (first + count) n
  unfolding lowest_from
  lowest_from-IsLowest first zero n h =
      ((λ i a b c. absurd (omega arith)), inr (sym (shown h), λ i a b. absurd (omega arith)))
  lowest_from-IsLowest first (suc count) n h =
      load-IsLowest first (first + suc count) n (store.load first s)
        (lowest_from store (first + 1) count s) (omega arith) refl
        (λ k.
          subst (λ past. IsLowest (first + 1) past n) (the_sum first count)
            (lowest_from-IsLowest (first + 1) count n k))
        h
    where
      the_sum : (a b : ℕ) → a + 1 + b ≡ a + suc b
      the_sum a b = omega arith

  -- The lowest undeleted message, where the walk returns one, has no live mail below it in the
  -- store; it is the number of a live mail up to the highest, or, if the store has no live mail up
  -- to the highest, the number after the highest, which saturates.
  pub lowest_undeleted_message_lem :
      (n : ℕ)
      → lowest_undeleted_message store s ≡ ok n
      → ((i : ℕ) → 1 ≤ i → i < 1 + store.highest_message s → i < n → IsVacant i)
        × ((IsLive n × (n < 1 + store.highest_message s))
            ⊎ ((n ≡ saturating_add (store.highest_message s) 1)
                × ((i : ℕ) → 1 ≤ i → i < 1 + store.highest_message s → IsVacant i)))
  unfolding lowest_undeleted_message
  lowest_undeleted_message_lem n h = lowest_from-IsLowest 1 (store.highest_message s) n h
