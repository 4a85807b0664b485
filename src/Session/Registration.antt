-- ===== src/Session/Registration.antt =====
-- rust/src/domain/session/registration.rs: the new-user sub-flow.
use nextexpress.Prelude.{ℕ, Bool, true, Option, none, some, Result, ok, err, codes, if◌then◌else◌}
use nextexpress.Time.{SystemTime}
use nextexpress.CallerLog.{CallerLog}
use nextexpress.User.{User}
use nextexpress.User.Persisted.{to_persisted}
use nextexpress.Session.{Session, SessionPhase, state, move_to_logging_off}
use nextexpress.Session.State.{
  StateError, LogoffReason, VerifyNewUserPasswordError, CompleteNewUserRegistrationError,
}
use nextexpress.Session.Policy.{SessionPolicy}
use nextexpress.Session.Call
use nextexpress.Session.Call.{
  AuthenticatedCall, CallId, NewUserGate, NewUserPasswordOutcome, GateAlreadyVerified, new_gate,
  record_attempt,
}
use nextexpress.Session.Onboarding.{OnboardedEntry, on_enter_onboarded}

pub data NewUserRequestOutcome : Type 0 where
  initialised : Bool → NewUserRequestOutcome
  rejected : NewUserRequestOutcome

abbrev request_in :
    SessionPhase → Bool → Bool → Session → Session × Result StateError NewUserRequestOutcome
request_in (SessionPhase.identifying n) allow_new_users password_required s =
    if allow_new_users
    then (
      record s { phase = SessionPhase.new_user_registering (new_gate password_required) },
      ok (NewUserRequestOutcome.initialised password_required),
    )
    else (
      move_to_logging_off (some LogoffReason.new_user_rejected) s,
      ok NewUserRequestOutcome.rejected,
    )
request_in _ allow_new_users password_required s = (s, err (StateError.wrong_state (state s)))

unfoldable pub record_new_user_request :
    Bool → Bool → Session → Session × Result StateError NewUserRequestOutcome
unfolding new_gate move_to_logging_off
record_new_user_request allow_new_users password_required s =
    request_in s.phase allow_new_users password_required s

abbrev pub Attempted : Type 0
Attempted = NewUserPasswordOutcome × Option CallerLog

abbrev failure_log : SystemTime → Session → CallerLog
failure_log now s = record {
  session_node = s.shared.node_number;
  at = now;
  text = codes "New-user password failure";
  is_password_failure = true;
}

-- What follows the gate's own decision, on the session that holds the gate after it.
abbrev after_attempt :
    Result GateAlreadyVerified NewUserPasswordOutcome
    → SystemTime
    → Session
    → Session × Result VerifyNewUserPasswordError Attempted
after_attempt (err e) now s = (s, err VerifyNewUserPasswordError.already_verified)
after_attempt (ok NewUserPasswordOutcome.verified) now s =
    (s, ok (NewUserPasswordOutcome.verified, none))
after_attempt (ok NewUserPasswordOutcome.too_many_failures) now s = (
  move_to_logging_off (some LogoffReason.new_user_rejected) s,
  ok (NewUserPasswordOutcome.too_many_failures, some (failure_log now s)),
)
after_attempt (ok NewUserPasswordOutcome.mismatch) now s =
    (s, ok (NewUserPasswordOutcome.mismatch, some (failure_log now s)))

abbrev attempt_in :
    SessionPhase
    → Bool
    → ℕ
    → SystemTime
    → Session
    → Session × Result VerifyNewUserPasswordError Attempted
attempt_in (SessionPhase.new_user_registering gate) matches max_attempts now s =
    let (gate', outcome) = record_attempt matches max_attempts gate in
    after_attempt outcome now (record s { phase = SessionPhase.new_user_registering gate' })
attempt_in _ matches max_attempts now s =
    (s, err (VerifyNewUserPasswordError.wrong_state (state s)))

unfoldable pub apply_new_user_password_attempt :
    Bool → ℕ → SystemTime → Session → Session × Result VerifyNewUserPasswordError Attempted
unfolding record_attempt move_to_logging_off
apply_new_user_password_attempt matches max_attempts now s =
    attempt_in s.phase matches max_attempts now s

abbrev pub Registered : Type 0
Registered = Session × Result CompleteNewUserRegistrationError (Option CallerLog)

abbrev rejection_log : Option (Session × OnboardedEntry) → Option Registered
rejection_log none = none
rejection_log (some (s, OnboardedEntry.rejected entry)) = some (s, ok (some entry))
rejection_log (some (s, OnboardedEntry.admitted daily)) = some (s, ok none)

abbrev register_in :
    SessionPhase → User → SessionPolicy → SystemTime → CallId → Session → Option Registered
register_in (SessionPhase.new_user_registering gate) user policy now call_id s =
    if gate.is_verified
    then rejection_log (
        on_enter_onboarded policy now (record s {
          persist_baseline = some (to_persisted user);
          phase = SessionPhase.onboarded (Call.new call_id user now);
        }))
    else some (s, err CompleteNewUserRegistrationError.gate_not_verified)
register_in _ user policy now call_id s =
    some (s, err (CompleteNewUserRegistrationError.wrong_state (state s)))

-- `none` is a panic of the rule cluster.
unfoldable pub complete_new_user_registration :
    User → SessionPolicy → SystemTime → CallId → Session → Option Registered
unfolding on_enter_onboarded Call.new
complete_new_user_registration user policy now call_id s =
    register_in s.phase user policy now call_id s
