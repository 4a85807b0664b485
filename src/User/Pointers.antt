-- ===== src/User/Pointers.antt =====
-- Reading and scanning pointers through rust/src/domain/user/conference_access.rs.
use nextexpress.Prelude.{
  ℕ, ◌≡◌, refl, inl, inr, Bool, true, false, ◌&&◌, Option, none, some, List, [], ◌∷◌, arith, ◌==◌,
  find, any, update_first, Option-cases, if◌then◌else◌,
}
use nextexpress.Time.{SystemTime}
use nextexpress.ReadPointers.{ReadPointers, fresh, advance_last_read, advance_last_scanned}
use nextexpress.Conference.{MessageBaseRef}
use nextexpress.Conference.Membership.{ConferenceMembership, of_base, pointers_for, upsert}
use nextexpress.User.Access
use nextexpress.User.Access.{
  ConferenceAccess, of_conference, advance_row, advance_pointers, read_pointers_for, has_row,
}

-- What an advance makes of the row that the base had, or had not.
abbrev pub advanced :
    ℕ → SystemTime → (ReadPointers → ReadPointers) → Option ReadPointers → ReadPointers
advanced n now f none = f (fresh n now)
advanced n now f (some row) = f row

abbrev KeepsBase : (ReadPointers → ReadPointers) → Type 0
KeepsBase f = (row : ReadPointers) → (f row).msgbase_number ≡ row.msgbase_number

find-update_first_base :
    (n : ℕ) (f : ReadPointers → ReadPointers) (rows : List ReadPointers)
    → KeepsBase f
    → (other : ℕ)
    → find (of_base other) (update_first (of_base n) f rows) ≡ (
        if n == other
        then (elim (find (of_base n) rows) [ none ↦ none | some row ↦ some (f row) ])
        else find (of_base other) rows)
find-update_first_base n f [] keep other = ground arith
find-update_first_base n f (row ∷ rows) keep other =
    ground (arith, keep row, find-update_first_base n f rows keep other)

find-upsert :
    (row : ReadPointers) (rows : List ReadPointers) (other : ℕ)
    → find (of_base other) (upsert row rows)
      ≡ (if row.msgbase_number == other then some row else find (of_base other) rows)
find-upsert row [] other = refl
find-upsert row (p ∷ ps) other = ground (arith, find-upsert row ps other)

-- The row of the base advances, created first where there is none; every other row stays.
advance_row_lem :
    (n : ℕ) (now : SystemTime) (f : ReadPointers → ReadPointers) (m : ConferenceMembership)
    → KeepsBase f
    → (other : ℕ)
    → pointers_for (advance_row n now f m) other
      ≡ (if n == other then some (advanced n now f (pointers_for m n)) else pointers_for m other)
unfolding advance_row pointers_for fresh
advance_row_lem n now f m keep other = elim (Option-cases (find (of_base n) m.pointers)) [
  | inl missing ↦ ground (
    arith,
    missing,
    find-update_first_base n f (upsert (fresh n now) m.pointers) keep other,
    find-upsert (fresh n now) m.pointers n,
    find-upsert (fresh n now) m.pointers other,
  )
  | inr (row, e) ↦ ground (arith, e, find-update_first_base n f m.pointers keep other)
]

advance_row-conference_number :
    (n : ℕ) (now : SystemTime) (f : ReadPointers → ReadPointers) (m : ConferenceMembership)
    → (advance_row n now f m).conference_number ≡ m.conference_number
unfolding advance_row
advance_row-conference_number n now f m = ground arith

find-update_first_conference :
    (n : ℕ) (g : ConferenceMembership → ConferenceMembership) (rows : List ConferenceMembership)
    → ((m : ConferenceMembership) → (g m).conference_number ≡ m.conference_number)
    → (other : ℕ)
    → find (of_conference other) (update_first (of_conference n) g rows) ≡ (
        if n == other
        then (elim (find (of_conference n) rows) [ none ↦ none | some m ↦ some (g m) ])
        else find (of_conference other) rows)
find-update_first_conference n g [] keep other = ground arith
find-update_first_conference n g (m ∷ rows) keep other =
    ground (arith, keep m, find-update_first_conference n g rows keep other)

any-find :
    (n : ℕ) (rows : List ConferenceMembership)
    → any (of_conference n) rows
      ≡ (elim (find (of_conference n) rows) [ none ↦ false | some m ↦ true ])
any-find n [] = refl
any-find n (m ∷ rows) = ground (arith, any-find n rows)

abbrev pub same_base : MessageBaseRef → MessageBaseRef → Bool
same_base a b = a.conference_number == b.conference_number && a.msgbase_number == b.msgbase_number

-- An advance that keeps the base number is seen at its own base, whose row is created where there
-- was none, and at no other base; without a membership row for the conference nothing changes. It
-- reports whether there was such a row.
pub read_pointers_for-advance_pointers :
    (coord other : MessageBaseRef) (now : SystemTime) (f : ReadPointers → ReadPointers)
    → KeepsBase f
    → (access : ConferenceAccess)
    → ((advance_pointers coord now f access).1 ≡ has_row coord.conference_number access)
      × (read_pointers_for other (advance_pointers coord now f access).0 ≡ (
          if same_base coord other && has_row coord.conference_number access
          then some (advanced coord.msgbase_number now f (read_pointers_for coord access))
          else read_pointers_for other access))
unfolding advance_pointers read_pointers_for has_row
read_pointers_for-advance_pointers coord other now f keep access = (
  refl,
  elim (Option-cases (find (of_conference coord.conference_number) access.memberships)) [
    | inl missing ↦ ground (
      arith,
      missing,
      any-find coord.conference_number access.memberships,
      find-update_first_conference coord.conference_number (advance_row coord.msgbase_number now f)
          access.memberships (advance_row-conference_number coord.msgbase_number now f)
          other.conference_number,
    )
    | inr (m, e) ↦ ground (
      arith,
      e,
      any-find coord.conference_number access.memberships,
      find-update_first_conference coord.conference_number (advance_row coord.msgbase_number now f)
          access.memberships (advance_row-conference_number coord.msgbase_number now f)
          other.conference_number,
      advance_row_lem coord.msgbase_number now f m keep other.msgbase_number,
    )
  ],
)

advance_last_read-base : (to : ℕ) → KeepsBase (advance_last_read to)
unfolding advance_last_read
advance_last_read-base to row = refl

advance_last_scanned-base : (to : ℕ) → KeepsBase (advance_last_scanned to)
unfolding advance_last_scanned
advance_last_scanned-base to row = refl

-- Reading and scanning a base each advance the pointers of that base alone, towards the given
-- number from the row that was there or a fresh one, provided that there is a membership row for
-- its conference; without one nothing changes. Both report whether there was one.
pub read_pointers_for-advance :
    (coord other : MessageBaseRef) (to : ℕ) (now : SystemTime) (access : ConferenceAccess)
    → let seen = read_pointers_for coord access in
      let applies = same_base coord other && has_row coord.conference_number access in
      ((Access.advance_last_read coord to now access).1 ≡ has_row coord.conference_number access)
      × ((Access.advance_last_scanned coord to now access).1
          ≡ has_row coord.conference_number access)
      × (read_pointers_for other (Access.advance_last_read coord to now access).0 ≡ (
          if applies
          then some (advanced coord.msgbase_number now (advance_last_read to) seen)
          else read_pointers_for other access))
      × (read_pointers_for other (Access.advance_last_scanned coord to now access).0 ≡ (
          if applies
          then some (advanced coord.msgbase_number now (advance_last_scanned to) seen)
          else read_pointers_for other access))
unfolding Access.advance_last_read Access.advance_last_scanned
read_pointers_for-advance coord other to now access =
    let read =
      read_pointers_for-advance_pointers coord other now (advance_last_read to)
        (advance_last_read-base to) access in
    let scanned =
      read_pointers_for-advance_pointers coord other now (advance_last_scanned to)
        (advance_last_scanned-base to) access in
    (read.0, scanned.0, read.1, scanned.1)
