-- ===== src/Session/Onboarding.antt =====
-- The rules that fire when a session becomes onboarded, of rust/src/domain/session/lifecycle.rs and
-- lockout.rs. Code that can panic gives an `Option`, and `none` is the panic.
use nextexpress.Prelude.{
  ℕ, Bool, true, false, Option, none, some, Result, ok, err, ◌>>=◌, ◌>>◌, expect, codes,
  if◌then◌else◌,
}
use nextexpress.Text.{Text}
use nextexpress.Time.{SystemTime}
use nextexpress.Password.{PasswordHashKind}
use nextexpress.CallerLog.{CallerLog}
use nextexpress.User.{User}
use nextexpress.User.Account.{is_locked_out, clear_invalid_attempts}
use nextexpress.User.Auth.{flag_reset_if_expired, record_change}
use nextexpress.Session.{Session, SessionPhase, state, user, move_to_logging_off}
use nextexpress.Session.State.{SessionState, StateError, LogoffReason, CompletePasswordResetError}
use nextexpress.Session.Policy.{SessionPolicy}
use nextexpress.Session.Call
use nextexpress.Session.Call.{AuthenticatedCall, CallId, DailyBudgetOutcome}
use nextexpress.Session.Budget.{initialise_daily_budget}

pub data OnboardedEntry : Type 0 where
  rejected : CallerLog → OnboardedEntry
  admitted : DailyBudgetOutcome → OnboardedEntry

abbrev rejection_reason : User → LogoffReason
rejection_reason user =
    if user.account.account_locked
    then LogoffReason.locked_account
    else LogoffReason.new_user_rejected

abbrev reject_in : SessionPhase → SystemTime → Session → Option (Session × Option CallerLog)
reject_in (SessionPhase.onboarded call) now s =
    if is_locked_out call.user.account
    then some (
      move_to_logging_off (some (rejection_reason call.user)) s,
      some (record {
        session_node = s.shared.node_number;
        at = now;
        text = codes "Logon rejected: account locked or below access threshold";
        is_password_failure = false;
      }),
    )
    else some (s, none)
reject_in _ now s = none

unfoldable pub reject_locked_or_insufficient_access :
    SystemTime → Session → Option (Session × Option CallerLog)
unfolding is_locked_out move_to_logging_off
reject_locked_or_insufficient_access now s = reject_in s.phase now s

abbrev force_in : SessionPhase → ℕ → SystemTime → Session → Session × Result StateError (Unit {0})
force_in (SessionPhase.onboarded call) days now s =
    if call.user.account.account_locked then (s, ok tt) else (
      record s {
        phase = SessionPhase.onboarded (record call {
          user = record call.user {
            credentials = flag_reset_if_expired days now call.user.credentials;
          };
        });
      },
      ok tt,
    )
force_in _ days now s = (s, err (StateError.wrong_state (state s)))

unfoldable pub force_password_reset_if_due :
    ℕ → SystemTime → Session → Session × Result StateError (Unit {0})
unfolding flag_reset_if_expired
force_password_reset_if_due days now s = force_in s.phase days now s

abbrev is_onboarded : SessionState → Bool
is_onboarded SessionState.onboarded = true
is_onboarded _ = false

abbrev pub assert : Bool → Option (Unit {0})
assert true = some tt
assert false = none

-- The rules after the rejection rule has let the user through.
unfoldable pub admit : SessionPolicy → SystemTime → Session → Option (Session × OnboardedEntry)
unfolding initialise_daily_budget force_password_reset_if_due
admit policy now s =
    let (s', daily) = initialise_daily_budget now policy.daily_reset_offset s in
    let (s'', forced) = force_password_reset_if_due policy.password_expiry_days now s' in
    do outcome ← expect daily; expect forced; some (s'', admitted outcome)

abbrev after_rejection :
    SessionPolicy → SystemTime → Session × Option CallerLog → Option (Session × OnboardedEntry)
after_rejection policy now (s, some entry) = some (s, rejected entry)
after_rejection policy now (s, none) = admit policy now s

unfoldable pub on_enter_onboarded :
    SessionPolicy → SystemTime → Session → Option (Session × OnboardedEntry)
unfolding reject_locked_or_insufficient_access admit
on_enter_onboarded policy now s = do
  assert (is_onboarded (state s))
  bound ← user s
  decided ← reject_locked_or_insufficient_access now s
  after_rejection policy now decided

-- `Ok` of the rule cluster's entry, or `WrongState`, beside the session.
abbrev succeed :
    Option (Session × OnboardedEntry) → Option (Session × Result StateError OnboardedEntry)
succeed none = none
succeed (some (s, entry)) = some (s, ok entry)

abbrev complete_in :
    SessionPhase
    → SessionPolicy
    → SystemTime
    → CallId
    → Session
    → Option (Session × Result StateError OnboardedEntry)
complete_in (SessionPhase.authenticating attempt) policy now call_id s =
    let cleared = record attempt.user { account = clear_invalid_attempts attempt.user.account } in
    succeed (
      on_enter_onboarded policy now
        (record s { phase = SessionPhase.onboarded (Call.new call_id cleared now) }))
complete_in _ policy now call_id s = some (s, err (StateError.wrong_state (state s)))

unfoldable pub complete_authentication :
    SessionPolicy
    → SystemTime
    → CallId
    → Session
    → Option (Session × Result StateError OnboardedEntry)
unfolding on_enter_onboarded clear_invalid_attempts Call.new
complete_authentication policy now call_id s = complete_in s.phase policy now call_id s

abbrev change_in :
    SessionPhase
    → Text
    → Option Text
    → PasswordHashKind
    → SystemTime
    → Session
    → Session × Result CompletePasswordResetError (Unit {0})
change_in (SessionPhase.onboarded call) hash salt kind now s =
    let changed = record_change hash salt kind now call.user.credentials in
    if call.user.credentials.reset
    then (
      record s {
        phase =
            SessionPhase.onboarded
              (record call { user = record call.user { credentials = changed } });
      },
      ok tt,
    )
    else (s, err CompletePasswordResetError.reset_not_pending)
change_in _ hash salt kind now s = (s, err (CompletePasswordResetError.wrong_state (state s)))

unfoldable pub apply_password_change :
    Text
    → Option Text
    → PasswordHashKind
    → SystemTime
    → Session
    → Session × Result CompletePasswordResetError (Unit {0})
unfolding record_change
apply_password_change hash salt kind now s = change_in s.phase hash salt kind now s
