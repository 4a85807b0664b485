-- ===== src/Conference.antt =====
-- rust/src/domain/conference.rs: conferences with their message bases, and membership rows.
pub mod Membership
use nextexpress.Prelude.{
  ℕ, zero, suc, ◌<◌, ◌≤◌, ◌≡◌, ◌≢◌, Bool, true, false, ◌&&◌, Option, none, some, List, [], ◌∷◌,
  Result, ok, err, arith, ◌==◌, not, ltb, length, find, Option-cases, inl, inr, refl, if◌then◌else◌,
}
use nextexpress.Text.{Text}

pub data AllowedAddressing : Type 0 where
  individual_only individual_or_all individual_or_eall any : AllowedAddressing

pub data AllScanScope : Type 0 where
  local all_users_in_conf : AllScanScope

pub data NameType : Type 0 where
  handle real_name internet_name : NameType

abbrev pub name_type_eq : NameType → NameType → Bool
name_type_eq NameType.handle NameType.handle = true
name_type_eq NameType.real_name NameType.real_name = true
name_type_eq NameType.internet_name NameType.internet_name = true
name_type_eq _ _ = false

pub record MessageBaseRef : Type 0 where
  pub conference_number : ℕ
  pub msgbase_number : ℕ

abbrev pub msgbase_ref_eq : MessageBaseRef → MessageBaseRef → Bool
msgbase_ref_eq a b =
    a.conference_number == b.conference_number && a.msgbase_number == b.msgbase_number

pub record MessageBase : Type 0 where
  pub conference_number : ℕ
  pub number : ℕ
  pub name : Text
  pub allowed_addressing : AllowedAddressing
  pub all_scan_scope : AllScanScope

unfoldable pub msgbase_ref : MessageBase → MessageBaseRef
msgbase_ref base = record {
  conference_number = base.conference_number;
  msgbase_number = base.number;
}

pub record Conference : Type 0 where
  pub number : ℕ
  pub name : Text
  pub msgbases : List MessageBase
  pub accepted_name_type : NameType

pub data ConferenceError : Type 0 where
  no_message_bases : ConferenceError
  msgbase_conference_mismatch : ℕ → ℕ → ℕ → ConferenceError

abbrev pub has_number : ℕ → MessageBase → Bool
has_number n base = base.number == n

-- `Conference::with_name_type`.
unfoldable pub with_name_type :
    ℕ → Text → List MessageBase → NameType → Result ConferenceError Conference
with_name_type number name [] accepted = err no_message_bases
with_name_type number name (base ∷ bases) accepted =
    elim (find (λ m. not (m.conference_number == number)) (base ∷ bases)) [
      | some bad ↦ err (msgbase_conference_mismatch number bad.conference_number bad.number)
      | none ↦ ok (record {
        number = number;
        name = name;
        msgbases = base ∷ bases;
        accepted_name_type = accepted;
      })
    ]

unfoldable pub find_msgbase : Conference → ℕ → Option MessageBase
find_msgbase conf n = find (has_number n) conf.msgbases

abbrev pub first_of : List MessageBase → Option MessageBase
first_of [] = none
first_of (base ∷ bases) = some base

-- `primary_msgbase`: base 1, else the first. `none` is the panic of its `expect`.
unfoldable pub primary_msgbase : Conference → Option MessageBase
primary_msgbase conf = elim (find (has_number 1) conf.msgbases) [
  | some base ↦ some base
  | none ↦ first_of conf.msgbases
]

unfoldable pub disambiguating_msgbase_name : Conference → ℕ → Option Text
unfolding find_msgbase
disambiguating_msgbase_name conf n =
    if ltb 1 (length conf.msgbases)
    then (elim (find_msgbase conf n) [ some base ↦ some base.name | none ↦ none ])
    else none

abbrev BasesMatch : ℕ → List MessageBase → Type 0
BasesMatch number [] = Unit
BasesMatch number (base ∷ bases) = (base.conference_number ≡ number) × BasesMatch number bases

-- What `with_name_type` guarantees of a conference: it has a message base, and each of its bases
-- names it.
pub record IsConference (conf : Conference) : Type 0 where
  pub has_base : 0 < length conf.msgbases
  pub owns_bases : BasesMatch conf.number conf.msgbases

find-none-BasesMatch :
    (number : ℕ) (bases : List MessageBase)
    → find (λ m. not (m.conference_number == number)) bases ≡ none
    → BasesMatch number bases
find-none-BasesMatch number [] h = tt
find-none-BasesMatch number (base ∷ bases) h =
    (ground arith, find-none-BasesMatch number bases (ground arith))

-- A conference that `with_name_type` accepts has at least one message base, and each of its message
-- bases carries its number.
pub with_name_type-IsConference :
    (number : ℕ) (name : Text) (bases : List MessageBase) (accepted : NameType) {conf : Conference}
    → with_name_type number name bases accepted ≡ ok conf
    → IsConference conf
unfolding with_name_type
with_name_type-IsConference number name [] accepted h = cc
with_name_type-IsConference number name (base ∷ bases) accepted {conf} h =
    elim (Option-cases (find (λ m. not (m.conference_number == number)) (base ∷ bases))) [
      | inl all ↦
          let built : conf ≡ record {
            number = number;
            name = name;
            msgbases = base ∷ bases;
            accepted_name_type = accepted;
          } =
            ground arith in
          rw built (record {
            has_base = omega arith;
            owns_bases = find-none-BasesMatch number (base ∷ bases) all;
          })
      | inr (bad, e) ↦ ground arith
    ]

first_of_total :
    (bases : List MessageBase)
    → 0 < length bases
    → (base : MessageBase) × (first_of bases ≡ some base)
first_of_total [] h = absurd (omega arith)
first_of_total (base ∷ bases) h = (base, refl)

-- The `expect` of `primary_msgbase` does not fail on such a conference.
pub primary_msgbase_total :
    (conf : Conference)
    → IsConference conf
    → (base : MessageBase) × (primary_msgbase conf ≡ some base)
unfolding primary_msgbase
primary_msgbase_total conf h = elim (Option-cases (find (has_number 1) conf.msgbases)) [
  | inl e ↦ let (base, first) = first_of_total conf.msgbases h.has_base in (base, ground arith)
  | inr (base, e) ↦ (base, ground arith)
]
