-- ===== src/ReadPointers.antt =====
-- rust/src/domain/messaging/read_pointers.rs: how far a user has read and scanned a message base.
use nextexpress.Prelude.{ℕ, ◌≤◌, ◌<◌, ◌≡◌, max, Result, ok, err, arith, ltb, if◌then◌else◌}
use nextexpress.Time.{SystemTime}

pub record ReadPointers : Type 0 where
  pub msgbase_number : ℕ
  pub last_read : ℕ
  pub last_scanned : ℕ
  pub new_since : SystemTime

pub data ReadPointersError : Type 0 where
  read_exceeds_scanned : ℕ → ℕ → ReadPointersError

unfoldable pub new : ℕ → ℕ → ℕ → SystemTime → Result ReadPointersError ReadPointers
new msgbase_number last_read last_scanned new_since =
    if ltb last_scanned last_read
    then err (read_exceeds_scanned last_read last_scanned)
    else ok (record {
      msgbase_number = msgbase_number;
      last_read = last_read;
      last_scanned = last_scanned;
      new_since = new_since;
    })

unfoldable pub fresh : ℕ → SystemTime → ReadPointers
fresh msgbase_number created_at = record {
  msgbase_number = msgbase_number;
  last_read = 0;
  last_scanned = 0;
  new_since = created_at;
}

unfoldable pub advance_last_read : ℕ → ReadPointers → ReadPointers
advance_last_read to row =
    let read = max row.last_read to in
    record row { last_read = read; last_scanned = max row.last_scanned read }

unfoldable pub advance_last_scanned : ℕ → ReadPointers → ReadPointers
advance_last_scanned to row = record row { last_scanned = max row.last_scanned to }

-- `ReadDoesNotExceedScanned`.
pub record IsOrdered (row : ReadPointers) : Type 0 where
  pub ordered : row.last_read ≤ row.last_scanned

pub new-IsOrdered :
    (msgbase_number last_read last_scanned : ℕ) (new_since : SystemTime) {row : ReadPointers}
    → new msgbase_number last_read last_scanned new_since ≡ ok row
    → IsOrdered row
unfolding new
new-IsOrdered msgbase_number last_read last_scanned new_since {row} h = ground arith

pub fresh-IsOrdered : (msgbase_number : ℕ) (at : SystemTime) → IsOrdered (fresh msgbase_number at)
unfolding fresh
fresh-IsOrdered msgbase_number at = ground arith

pub advance_last_read-IsOrdered :
    (to : ℕ) (row : ReadPointers) → IsOrdered row → IsOrdered (advance_last_read to row)
unfolding advance_last_read
advance_last_read-IsOrdered to row h = omega arith

pub advance_last_scanned-IsOrdered :
    (to : ℕ) (row : ReadPointers) → IsOrdered row → IsOrdered (advance_last_scanned to row)
unfolding advance_last_scanned
advance_last_scanned-IsOrdered to row h = omega arith

-- No operation lets a row have read further than it has scanned: a row built from numbers has the
-- order, which is why the others are refused, a fresh row has it, and both advances keep it.
pub IsOrdered-operations :
    (msgbase_number last_read last_scanned to : ℕ) (at : SystemTime) (row : ReadPointers)
    → IsOrdered row
    → ((built : ReadPointers)
        → new msgbase_number last_read last_scanned at ≡ ok built
        → IsOrdered built)
      × ((e : ReadPointersError)
          → new msgbase_number last_read last_scanned at ≡ err e
          → last_scanned < last_read)
      × IsOrdered (fresh msgbase_number at)
      × IsOrdered (advance_last_read to row)
      × IsOrdered (advance_last_scanned to row)
unfolding new
IsOrdered-operations msgbase_number last_read last_scanned to at row h = (
  (λ built e. new-IsOrdered msgbase_number last_read last_scanned at e),
  (λ e k. ground arith),
  fresh-IsOrdered msgbase_number at,
  advance_last_read-IsOrdered to row h,
  advance_last_scanned-IsOrdered to row h,
)
