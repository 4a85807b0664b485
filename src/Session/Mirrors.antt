-- ===== src/Session/Mirrors.antt =====
-- The stored commands of rust/src/domain/user/commands.rs against the session's own changes of its
-- user, of rust/src/domain/session/lockout.rs.
use nextexpress.Prelude.{◌≡◌, Bool, true, false, Option, some, ok, arith}
use nextexpress.Text.{Text}
use nextexpress.Time.{SystemTime}
use nextexpress.CallerLog.{CallerLog}
use nextexpress.Password.{PasswordHashKind}
use nextexpress.User.{User}
use nextexpress.User.Persisted.{to_persisted}
use nextexpress.Session.{Session, SessionPhase, user}
use nextexpress.Session.Policy.{SessionPolicy}
use nextexpress.Session.Call.{AuthenticatingAttempt, CallId}
use nextexpress.Session.Lockout.{
  VerifyPasswordOutcome, AuthOutcome, mismatched, apply_password_match, apply_password_mismatch,
}
use nextexpress.Session.Onboarding.{apply_password_change}
use nextexpress.Session.Commands.{apply_outcome, apply_change}

-- Whether a wrong password has locked the account.
abbrev pub locks : VerifyPasswordOutcome → Bool
locks VerifyPasswordOutcome.account_locked = true
locks _ = false

-- The command of a matched password does to the stored snapshot what the session did to its user:
-- after the match, whether the user is let in or rejected, the snapshot of the session's user is
-- the command applied to the snapshot of the user before.
pub apply_outcome-match :
    (policy : SessionPolicy) (now : SystemTime) (call_id : CallId) (s t : Session)
    (attempt : AuthenticatingAttempt) (outcome : VerifyPasswordOutcome) (log : Option CallerLog)
    (command : AuthOutcome) (after : User)
    → s.phase ≡ SessionPhase.authenticating attempt
    → apply_password_match policy now call_id s ≡ some (t, ok (outcome, log, command))
    → user t ≡ some after
    → to_persisted after ≡ apply_outcome command (to_persisted attempt.user)
unfolding apply_password_match to_persisted apply_outcome
apply_outcome-match policy now call_id s t attempt outcome log command after p h bound =
    ground arith

-- The command of a wrong password does to the stored snapshot what the session did to its user,
-- except for one field: where the wrong password locks the account, the session's user starts over
-- at no failures, while the command counts one failure more.
pub apply_outcome-mismatch :
    (policy : SessionPolicy) (now : SystemTime) (s t : Session) (attempt : AuthenticatingAttempt)
    (outcome : VerifyPasswordOutcome) (log : CallerLog) (after : User)
    → s.phase ≡ SessionPhase.authenticating attempt
    → apply_password_mismatch policy now s ≡ (t, ok (outcome, log))
    → user t ≡ some after
    → (locks outcome ≡ false
        → to_persisted after ≡ apply_outcome (mismatched false) (to_persisted attempt.user))
      × (locks outcome ≡ true
          → to_persisted after
            ≡ record (apply_outcome (mismatched true) (to_persisted attempt.user)) {
              invalid_attempts = 0;
            })
unfolding apply_password_mismatch to_persisted apply_outcome
apply_outcome-mismatch policy now s t attempt outcome log after p h bound =
    ((λ k. ground arith), λ k. ground arith)

-- The command of a password change that a session accepts does to the stored snapshot what the
-- session did to its user.
pub apply_change-apply_password_change :
    (hash : Text) (salt : Option Text) (kind : PasswordHashKind) (now : SystemTime) (s t : Session)
    (before after : User)
    → apply_password_change hash salt kind now s ≡ (t, ok tt)
    → user s ≡ some before
    → user t ≡ some after
    → to_persisted after
      ≡ apply_change
          (record { hash = hash; salt = salt; kind = kind; changed_at = now })
          (to_persisted before)
unfolding apply_password_change to_persisted apply_change
apply_change-apply_password_change hash salt kind now s t before after h b a = ground arith
