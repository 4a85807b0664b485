-- ===== src/Session/Lockout.antt =====
-- The two branches of password verification, of rust/src/domain/session/lockout.rs.
use nextexpress.Prelude.{Bool, true, Option, none, some, Result, ok, err, ◌>>=◌, codes}
use nextexpress.Time.{SystemTime}
use nextexpress.CallerLog.{CallerLog}
use nextexpress.User.Account.{lock_account}
use nextexpress.Session.{Session, SessionPhase, state, user, move_to_logging_off}
use nextexpress.Session.State.{StateError, LogoffReason}
use nextexpress.Session.Policy.{SessionPolicy, PasswordFailureDecision, password_failure_decision}
use nextexpress.Session.Call.{
  AuthenticatingAttempt, CallId, DailyBudgetOutcome, record_password_failure,
}
use nextexpress.Session.Onboarding.{OnboardedEntry, rejected, admitted, complete_authentication}

pub data VerifyPasswordOutcome : Type 0 where
  authenticated not_matching account_locked too_many_failures logon_rejected : VerifyPasswordOutcome

-- `AuthOutcome` of rust/src/domain/user/commands.rs.
pub data AuthOutcome : Type 0 where
  matched : Option DailyBudgetOutcome → Bool → AuthOutcome
  mismatched : Bool → AuthOutcome

abbrev pub Matched : Type 0
Matched = VerifyPasswordOutcome × Option CallerLog × AuthOutcome

abbrev outcome_of : OnboardedEntry → Bool → Matched
outcome_of (admitted daily) force_reset =
    (VerifyPasswordOutcome.authenticated, none, matched (some daily) force_reset)
outcome_of (rejected log) force_reset =
    (VerifyPasswordOutcome.logon_rejected, some log, matched none force_reset)

-- The `?` on a refusal, the `expect` on the bound user, and the mapping of the entry.
abbrev finish_match :
    Session × Result StateError OnboardedEntry → Option (Session × Result StateError Matched)
finish_match (s, err e) = some (s, err e)
finish_match (s, ok entry) = do
  bound ← user s
  some (s, ok (outcome_of entry bound.credentials.reset))

unfoldable pub apply_password_match :
    SessionPolicy → SystemTime → CallId → Session → Option (Session × Result StateError Matched)
unfolding complete_authentication
apply_password_match policy now call_id s = do
  completed ← complete_authentication policy now call_id s
  finish_match completed

unfoldable pub decide :
    PasswordFailureDecision → AuthenticatingAttempt → Session → Session × VerifyPasswordOutcome
unfolding lock_account move_to_logging_off
decide PasswordFailureDecision.lock_account attempt s = (
  move_to_logging_off (some LogoffReason.locked_account) (record s {
    phase = SessionPhase.authenticating (record attempt {
      user = record attempt.user { account = lock_account attempt.user.account };
    });
  }),
  VerifyPasswordOutcome.account_locked,
)
decide PasswordFailureDecision.end_session attempt s = (
  move_to_logging_off (some LogoffReason.excessive_password_fails)
      (record s { phase = SessionPhase.authenticating attempt }),
  VerifyPasswordOutcome.too_many_failures,
)
decide PasswordFailureDecision.continue attempt s =
    (record s { phase = SessionPhase.authenticating attempt }, VerifyPasswordOutcome.not_matching)

abbrev mismatch_in :
    SessionPhase
    → SessionPolicy
    → SystemTime
    → Session
    → Session × Result StateError (VerifyPasswordOutcome × CallerLog)
mismatch_in (SessionPhase.authenticating attempt) policy now s =
    let failed = record_password_failure attempt in
    let decision =
      password_failure_decision policy failed.user.account.invalid_attempts
        failed.password_retry_count in
    let (s', outcome) = decide decision failed s in
    (
      s',
      ok (
        outcome,
        record {
          session_node = s.shared.node_number;
          at = now;
          text = codes "Password failure";
          is_password_failure = true;
        },
      ),
    )
mismatch_in _ policy now s = (s, err (StateError.wrong_state (state s)))

unfoldable pub apply_password_mismatch :
    SessionPolicy
    → SystemTime
    → Session
    → Session × Result StateError (VerifyPasswordOutcome × CallerLog)
unfolding record_password_failure password_failure_decision decide
apply_password_mismatch policy now s = mismatch_in s.phase policy now s
