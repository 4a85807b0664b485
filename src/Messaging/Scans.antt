-- ===== src/Messaging/Scans.antt =====
-- What rust/src/domain/messaging/scan_mail.rs promises of a scan.
use nextexpress.Prelude.{
  ℕ, zero, suc, ◌+◌, ◌-◌, ◌≡◌, ◌≤◌, ◌<◌, refl, subst, ap, ◌∙◌, inl, inr, ◌⊎◌, true, false, Option,
  none, some, List, [], ◌∷◌, Result, ok, err, Bool-cases, arith, Memᴰ, Every, Every-map, max, min,
  length, u32_max,
}
use mathlib.Core.List.Memᴰ.{head, tail}
use nextexpress.Conference.{MessageBaseRef, msgbase_ref_eq, AllScanScope}
use nextexpress.User.{User}
use nextexpress.Messaging.{Mail}
use nextexpress.Messaging.Store.{MailStore, MailStoreError, IsMailStore}
use nextexpress.Messaging.Scanning.{
  MailScanRow, ScanResult, ScanMailError, row_of, is_unread_for, first_number, summary, list_row,
  list_from, walk,
}

-- Ascending numbers, all from a bound on.
abbrev pub Ascends : ℕ → List MailScanRow → Type 0
Ascends bound [] = Unit
Ascends bound (row ∷ rows) = (bound ≤ row.number) × Ascends (row.number + 1) rows

-- A listing that has the rows of the unread mails in a range, and no other, in ascending order.
pub record Lists {S : Type 0} (store : MailStore S) (user : User) (msgbase : MessageBaseRef)
    (scope : AllScanScope) (first past : ℕ) (s : S) (rows : List MailScanRow) : Type 0 where
  pub ascends : Ascends first rows
  pub complete :
      (n : ℕ) (mail : Mail)
      → first ≤ n
      → n < past
      → store.load n s ≡ ok (some mail)
      → is_unread_for user mail scope ≡ true
      → Memᴰ (row_of msgbase mail) rows
  pub sound :
      Every
        (λ row.
          (n : ℕ) × (mail : Mail) × (first ≤ n)
          × (n < past)
          × (store.load n s ≡ ok (some mail))
          × (is_unread_for user mail scope ≡ true)
          × (row ≡ row_of msgbase mail))
        rows

Ascends-mono : (a b : ℕ) (rows : List MailScanRow) → a ≤ b → Ascends b rows → Ascends a rows
Ascends-mono a b [] h v = tt
Ascends-mono a b (row ∷ rows) h v = (omega (arith, v.0), v.1)

from_or_past : (a n : ℕ) → a ≤ n → (n ≡ a) ⊎ (a + 1 ≤ n)
from_or_past a n h = ground arith

module _ {S : Type 0} (store : MailStore S) (laws : IsMailStore store) (user : User)
    (msgbase : MessageBaseRef) (scope : AllScanScope) (s : S) where
  -- A number that has no unread mail adds no row.
  skip-Lists :
      (number past : ℕ) (rows : List MailScanRow)
      → ((mail : Mail)
          → store.load number s ≡ ok (some mail)
          → is_unread_for user mail scope ≡ false)
      → Lists store user msgbase scope (number + 1) past s rows
      → Lists store user msgbase scope number past s rows
  skip-Lists number past rows skips v = record {
    ascends = Ascends-mono number (number + 1) rows (omega arith) v.ascends;
    complete = λ n mail h k l u. elim (from_or_past number n h) [
      | inl here ↦
          absurd
            (ground (arith, skips mail (subst (λ i. store.load i s ≡ ok (some mail)) here l), u))
      | inr later ↦ v.complete n mail later k l u
    ];
    sound =
        Every-map (λ row (n, mail, h, k, l, u, e). (n, mail, omega arith, k, l, u, e)) rows v.sound;
  }

  add-Lists :
      (number past : ℕ) (mail : Mail) (rows : List MailScanRow)
      → number < past
      → store.load number s ≡ ok (some mail)
      → is_unread_for user mail scope ≡ true
      → Lists store user msgbase scope (number + 1) past s rows
      → Lists store user msgbase scope number past s (row_of msgbase mail ∷ rows)
  add-Lists number past mail rows h l u v = record {
    ascends = (
      omega (arith, laws.load_number number s mail l),
      Ascends-mono (mail.number + 1) (number + 1) rows
          (omega (arith, laws.load_number number s mail l)) v.ascends,
    );
    complete = λ n mail' h' k l' u'. elim (from_or_past number n h') [
      | inl here ↦ head (
          same_row mail' mail (same_mail (subst (λ i. store.load i s ≡ ok (some mail')) here l') l))
      | inr later ↦ tail (v.complete n mail' later k l' u')
    ];
    sound = (
      (number, mail, omega arith, h, l, u, refl),
      Every-map (λ row (n, mail, h, k, l, u, e). (n, mail, omega arith, k, l, u, e)) rows v.sound,
    );
  }
    where
      same_mail :
          {r : Result MailStoreError (Option Mail)} {a b : Mail}
          → r ≡ ok (some a)
          → r ≡ ok (some b)
          → a ≡ b
      same_mail e f = ground (arith, e, f)

      same_row : (a b : Mail) → a ≡ b → row_of msgbase a ≡ row_of msgbase b
      same_row a b e = ap (row_of msgbase) e

  load-Lists :
      (number past : ℕ) (r : Result MailStoreError (Option Mail))
      (rest : Result MailStoreError (List MailScanRow)) (rows : List MailScanRow)
      → number < past
      → store.load number s ≡ r
      → ((tail_rows : List MailScanRow)
          → rest ≡ ok tail_rows
          → Lists store user msgbase scope (number + 1) past s tail_rows)
      → list_row store r user msgbase scope rest ≡ ok rows
      → Lists store user msgbase scope number past s rows
  load-Lists number past (err e) rest rows h l v k = absurd (ground (arith, k))
  load-Lists number past (ok none) rest rows h l v k =
      skip-Lists number past rows (λ mail l'. absurd (ground (arith, l, l'))) (v rows k)
  load-Lists number past (ok (some mail)) (err e) rows h l v k = absurd (ground (arith, k))
  load-Lists number past (ok (some mail)) (ok others) rows h l v k =
      elim (Bool-cases (is_unread_for user mail scope)) [
        | inl unread ↦
            subst (Lists store user msgbase scope number past s) (shown (rw unread at k))
              (add-Lists number past mail others h l unread (v others refl))
        | inr seen ↦
            subst (Lists store user msgbase scope number past s) (shown (rw seen at k))
              (skip-Lists number past others (λ mail' l'. skipped mail' l' seen) (v others refl))
      ]
    where
      shown :
          {a b : List MailScanRow}
          → ◌≡◌ {A = Result MailStoreError (List MailScanRow)} (ok a) (ok b)
          → a ≡ b
      shown e = cc

      skipped :
          (mail' : Mail)
          → store.load number s ≡ ok (some mail')
          → is_unread_for user mail scope ≡ false
          → is_unread_for user mail' scope ≡ false
      skipped mail' l' seen =
          let same : mail' ≡ mail = ground (arith, l, l') in
          ap (λ m. is_unread_for user m scope) same ∙ seen

  nothing :
      {rows : List MailScanRow}
      → ◌≡◌ {A = Result MailStoreError (List MailScanRow)} (ok []) (ok rows)
      → [] ≡ rows
  nothing e = cc

  list_from-Lists :
      (number count : ℕ) (rows : List MailScanRow)
      → list_from store user msgbase scope number count s ≡ ok rows
      → Lists store user msgbase scope number (number + count) s rows
  unfolding list_from
  list_from-Lists number zero rows h = record {
    ascends = subst (Ascends number) (nothing h) tt;
    complete = λ n mail k l. absurd (omega arith);
    sound = subst (Every _) (nothing h) tt;
  }
  list_from-Lists number (suc count) rows h =
      load-Lists number (number + suc count) (store.load number s)
        (list_from store user msgbase scope (number + 1) count s) rows (omega arith) refl
        (λ others k.
          subst (λ past. Lists store user msgbase scope (number + 1) past s others)
            (the_sum number count) (list_from-Lists (number + 1) count others k))
        h
    where
      the_sum : (a b : ℕ) → a + 1 + b ≡ a + suc b
      the_sum a b = omega arith

  -- The result of a walk from a first number.
  abbrev pub IsWalk : ℕ → ScanResult → Type 0
  IsWalk first result =
      Lists store user msgbase scope first (first + (store.highest_message s + 1 - first)) s
        result.listing
      × (result.highest_message ≡ store.highest_message s)
      × (result.start ≡ first)
      × (result.unread_count ≡ min (length result.listing) u32_max)
      × (result.first_unread_number ≡ first_number result.listing)

  summary-IsWalk :
      (first : ℕ) (r : Result MailStoreError (List MailScanRow)) (result : ScanResult)
      → list_from store user msgbase scope first (store.highest_message s + 1 - first) s ≡ r
      → summary store first (store.highest_message s) r ≡ ok result
      → IsWalk first result
  summary-IsWalk first (err e) result l h = absurd (ground (arith, h))
  summary-IsWalk first (ok rows) result l h =
      subst (IsWalk first) (shown h)
        (list_from-Lists first (store.highest_message s + 1 - first) rows l, refl, refl, refl, refl)
    where
      shown : {a b : ScanResult} → ◌≡◌ {A = Result ScanMailError ScanResult} (ok a) (ok b) → a ≡ b
      shown e = cc

  -- For a store that keeps the promises of its trait, a walk over the message base that returns
  -- lists every unread mail from the first number to the highest, and no other, in ascending order
  -- of their numbers, and reports how many they are, which is the first, and the highest number; it
  -- takes a store of that message base.
  pub walk_lem :
      (start : ℕ) (result : ScanResult)
      → walk store user msgbase scope start s ≡ ok result
      → (msgbase_ref_eq (store.msgbase s) msgbase ≡ true) × IsWalk (max start 1) result
  unfolding walk
  walk_lem start result h = elim (Bool-cases (msgbase_ref_eq (store.msgbase s) msgbase)) [
    | inl bound ↦ (
      bound,
      summary-IsWalk (max start 1)
          (list_from store user msgbase scope (max start 1)
            (store.highest_message s + 1 - max start 1) s)
          result refl (rw bound at h),
    )
    | inr stray ↦ absurd (refuted (rw stray at h))
  ]
    where
      refuted :
          {e : ScanMailError} → ◌≡◌ {A = Result ScanMailError ScanResult} (err e) (ok result) → ⊥
      refuted e = ground (arith, e)
