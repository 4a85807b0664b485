-- ===== src/Session/Policy.antt =====
-- rust/src/domain/session_policy.rs: the tunable knobs, and the password-failure decision.
use nextexpress.Prelude.{ℕ, Bool, false, leb, if◌then◌else◌}
use nextexpress.Time.{Duration, from_mins}

pub data PasswordFailureDecision : Type 0 where
  continue end_session lock_account : PasswordFailureDecision

pub record SessionPolicy : Type 0 where
  pub max_password_failures : ℕ
  pub daily_reset_offset : Duration
  pub password_expiry_days : ℕ
  pub min_password_length : ℕ
  pub min_password_categories : ℕ
  pub input_timeout : Duration
  pub treat_timeout_as_logoff : Bool
  pub max_registration_handle_attempts : ℕ

unfoldable pub new : ℕ → SessionPolicy
new max_password_failures = record {
  max_password_failures = max_password_failures;
  daily_reset_offset = from_mins 360;
  password_expiry_days = 0;
  min_password_length = 0;
  min_password_categories = 0;
  input_timeout = from_mins 5;
  treat_timeout_as_logoff = false;
  max_registration_handle_attempts = 5;
}

unfoldable pub password_failure_decision : SessionPolicy → ℕ → ℕ → PasswordFailureDecision
password_failure_decision policy user_invalid_attempts password_retry_count =
    if leb policy.max_password_failures user_invalid_attempts
    then PasswordFailureDecision.lock_account
    else if leb policy.max_password_failures password_retry_count
    then PasswordFailureDecision.end_session
    else PasswordFailureDecision.continue
