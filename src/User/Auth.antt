-- ===== src/User/Auth.antt =====
-- rust/src/domain/user/credentials.rs: the stored password hash and the reset-required flag.
use nextexpress.Prelude.{
  ℕ, ◌*◌, Bool, true, false, ◌&&◌, Option, none, some, Result, ok, err, ltb, if◌then◌else◌,
}
use nextexpress.Text.{Text}
use nextexpress.Time.{SystemTime, Duration, Since, duration_since, from_secs}
use nextexpress.Password.{PasswordHashKind}

pub data UserError : Type 0 where
  salt_required : UserError

pub record Credentials : Type 0 where
  pub hash_kind : PasswordHashKind
  pub hash : Text
  pub salt : Option Text
  pub last_updated : SystemTime
  pub reset : Bool

abbrev pub requires_salt : PasswordHashKind → Bool
requires_salt PasswordHashKind.pbkdf2_10000 = true

abbrev is_none {ℓ} : {A : Type ℓ} → Option A → Bool
is_none none = true
is_none (some a) = false

unfoldable pub new :
    PasswordHashKind → Text → Option Text → SystemTime → Result UserError Credentials
new kind hash salt last_updated =
    if requires_salt kind && is_none salt
    then err salt_required
    else ok (record {
      hash_kind = kind;
      hash = hash;
      salt = salt;
      last_updated = last_updated;
      reset = false;
    })

unfoldable set_reset_required : Bool → Credentials → Credentials
set_reset_required value credentials = record credentials { reset = value }

-- `is_ok_and(|d| d > limit)`: a clock behind the last change is not expired.
abbrev pub elapsed_over : Since → Duration → Bool
elapsed_over (Since.ok d) limit = ltb limit d
elapsed_over (Since.err d) limit = false

unfoldable pub flag_reset_if_expired : ℕ → SystemTime → Credentials → Credentials
flag_reset_if_expired expiry_days now credentials =
    if ltb 0 expiry_days
      && elapsed_over (duration_since now credentials.last_updated)
          (from_secs (expiry_days * 86400))
    then record credentials { reset = true }
    else credentials

unfoldable pub record_change :
    Text → Option Text → PasswordHashKind → SystemTime → Credentials → Credentials
record_change hash salt kind at credentials = record {
  hash_kind = kind;
  hash = hash;
  salt = salt;
  last_updated = at;
  reset = false;
}
