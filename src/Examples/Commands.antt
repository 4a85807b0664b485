-- ===== src/Examples/Commands.antt =====
-- The theorems on the stored commands, at one user.
use nextexpress.Prelude.{◌≡◌, refl, true, false, none, some, ok, codes}
use nextexpress.Time.{from_mins}
use nextexpress.CallerLog.{CallerLog}
use nextexpress.Password.{PasswordHashKind}
use nextexpress.User.{User}
use nextexpress.User.Persisted.{to_persisted}
use nextexpress.Session.{Session, SessionPhase, user}
use nextexpress.Session.Call.{AuthenticatingAttempt, DailyBudgetOutcome, daily_budget_outcome}
use nextexpress.Session.Lockout.{
  VerifyPasswordOutcome, matched, mismatched, apply_password_match, apply_password_mismatch,
}
use nextexpress.Session.Onboarding.{apply_password_change}
use nextexpress.Session.Commands.{apply_outcome, apply_change}
use nextexpress.Session.Mirrors.{
  locks, apply_outcome-match, apply_outcome-mismatch, apply_change-apply_password_change,
}
use nextexpress.Examples.Fixtures.{alice, strict, session_in}

abbrev failed_twice : User
failed_twice = record alice { account = record alice.account { invalid_attempts = 2 } }

abbrev asking : AuthenticatingAttempt
asking = record { typed_name = codes "alice"; user = failed_twice; password_retry_count = 0 }

abbrev asked : Session
asked = session_in (SessionPhase.authenticating asking)

abbrev pub onboarded_as : User → Session
onboarded_as u = session_in (
    SessionPhase.onboarded (record {
      call_id = 1;
      user = u;
      authenticated_at = 20;
      time_remaining = from_mins 30;
      last_tick_at = 20;
    }))

matches :
    apply_password_match strict 20 1 asked
    ≡ some (
      onboarded_as alice,
      ok (
        VerifyPasswordOutcome.authenticated,
        none,
        matched (some DailyBudgetOutcome.new_day) false,
      ),
    )
unfolding apply_password_match daily_budget_outcome
matches = refl

apply_outcome-match_example :
    to_persisted alice
    ≡ apply_outcome (matched (some DailyBudgetOutcome.new_day) false) (to_persisted failed_twice)
apply_outcome-match_example =
    apply_outcome-match strict 20 1 asked (onboarded_as alice) asking
      VerifyPasswordOutcome.authenticated none (matched (some DailyBudgetOutcome.new_day) false)
      alice refl matches refl

abbrev locked_out : User
locked_out = record alice { account = record alice.account { account_locked = true } }

abbrev after_failure : Session
after_failure = (apply_password_mismatch strict 20 asked).0

abbrev failure : CallerLog
failure = record {
  session_node = 1;
  at = 20;
  text = codes "Password failure";
  is_password_failure = true;
}

fails :
    apply_password_mismatch strict 20 asked
    ≡ (after_failure, ok (VerifyPasswordOutcome.account_locked, failure))
unfolding apply_password_mismatch
fails = refl

is_locked_out : user after_failure ≡ some locked_out
unfolding apply_password_mismatch
is_locked_out = refl

apply_outcome-mismatch_example :
    (locks VerifyPasswordOutcome.account_locked ≡ false
      → to_persisted locked_out ≡ apply_outcome (mismatched false) (to_persisted failed_twice))
    × (locks VerifyPasswordOutcome.account_locked ≡ true
        → to_persisted locked_out
          ≡ record (apply_outcome (mismatched true) (to_persisted failed_twice)) {
            invalid_attempts = 0;
          })
apply_outcome-mismatch_example =
    apply_outcome-mismatch strict 20 asked after_failure asking VerifyPasswordOutcome.account_locked
      failure locked_out refl fails is_locked_out

abbrev expired : User
expired = record alice { credentials = record alice.credentials { reset = true } }

abbrev changed : User
changed = record alice {
  credentials = record {
    hash_kind = PasswordHashKind.pbkdf2_10000;
    hash = codes "n";
    salt = some (codes "t");
    last_updated = 30;
    reset = false;
  };
}

changes :
    apply_password_change
      (codes "n")
      (some (codes "t"))
      PasswordHashKind.pbkdf2_10000
      30
      (onboarded_as expired)
    ≡ (onboarded_as changed, ok tt)
unfolding apply_password_change
changes = refl

apply_change-apply_password_change_example :
    to_persisted changed
    ≡ apply_change
        (record {
          hash = codes "n";
          salt = some (codes "t");
          kind = PasswordHashKind.pbkdf2_10000;
          changed_at = 30;
        })
        (to_persisted expired)
apply_change-apply_password_change_example =
    apply_change-apply_password_change (codes "n") (some (codes "t")) PasswordHashKind.pbkdf2_10000
      30 (onboarded_as expired) (onboarded_as changed) expired changed changes refl refl
