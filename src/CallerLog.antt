-- ===== src/CallerLog.antt =====
-- rust/src/domain/caller_log.rs: one line of the caller log.
use nextexpress.Prelude.{ℕ, Bool}
use nextexpress.Text.{Text}
use nextexpress.Time.{SystemTime}

pub record CallerLog : Type 0 where
  pub session_node : ℕ
  pub at : SystemTime
  pub text : Text
  pub is_password_failure : Bool
