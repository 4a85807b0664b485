-- ===== src/Session.antt =====
-- rust/src/domain/session/mod.rs: the session, its phases, its accessors, and the moves into
-- teardown that the other files of rust/src/domain/session share.
pub mod State
pub mod Policy
pub mod Call
pub mod Activity
pub mod Identity
pub mod Budget
pub mod Onboarding
pub mod Lockout
pub mod Lifecycle
pub mod Registration
pub mod Conferencing
pub mod Trace
pub mod Clock
pub mod Tries
pub mod Leaving
pub mod Visiting
pub mod Commands
pub mod Mirrors
pub mod Saving
use nextexpress.Prelude.{
  ℕ, Bool, true, false, Option, none, some, Result, ok, err, if◌then◌else◌, map_or,
}
use nextexpress.Text.{Text}
use nextexpress.Time.{SystemTime, Duration}
use nextexpress.Conference.{NameType}
use nextexpress.Files.Flagged.{FlaggedFiles, empty}
use nextexpress.User.{User}
use nextexpress.User.Persisted.{PersistedUser, to_persisted}
use State.{LogonChannel, LogoffReason, SessionState, AcceptConnectionError, already_active_session}
use Call.{AuthenticatedCall, AuthenticatingAttempt, NewUserGate, CallSalvage, CallId}
use Activity.{ConferenceActivity}
use Activity

pub record SessionShared : Type 0 where
  pub node_number : ℕ
  pub channel : LogonChannel
  pub connected_at : SystemTime
  pub last_input_at : SystemTime
  pub online_baud : ℕ
  pub quick_logon : Bool
  pub quiet_mode : Bool
  pub display_name_type : NameType

pub data SessionPhase : Type 0 where
  connecting : SessionPhase
  identifying : ℕ → SessionPhase
  authenticating : AuthenticatingAttempt → SessionPhase
  new_user_registering : NewUserGate → SessionPhase
  onboarded : AuthenticatedCall → SessionPhase
  menu : AuthenticatedCall → SessionPhase
  logging_off : CallSalvage → Option LogoffReason → SessionPhase
  ended : CallSalvage → Option LogoffReason → Option SystemTime → SessionPhase

pub record Session : Type 0 where
  pub shared : SessionShared
  pub phase : SessionPhase
  pub activity : ConferenceActivity
  pub flagged_files : FlaggedFiles
  pub persist_baseline : Option PersistedUser

-- `SessionPhase::state`, `user`, `authenticated_at`, `call_id`, `logoff_reason`, `time_remaining`.
abbrev pub phase_state : SessionPhase → SessionState
phase_state SessionPhase.connecting = SessionState.connecting
phase_state (SessionPhase.identifying n) = SessionState.identifying
phase_state (SessionPhase.authenticating attempt) = SessionState.authenticating
phase_state (SessionPhase.new_user_registering gate) = SessionState.new_user_registering
phase_state (SessionPhase.onboarded call) = SessionState.onboarded
phase_state (SessionPhase.menu call) = SessionState.menu
phase_state (SessionPhase.logging_off call reason) = SessionState.logging_off
phase_state (SessionPhase.ended call reason at) = SessionState.ended

abbrev pub salvaged_user : CallSalvage → Option User
salvaged_user CallSalvage.unidentified = none
salvaged_user (CallSalvage.identified user) = some user
salvaged_user (CallSalvage.authenticated call) = some call.user

abbrev pub phase_user : SessionPhase → Option User
phase_user (SessionPhase.authenticating attempt) = some attempt.user
phase_user (SessionPhase.onboarded call) = some call.user
phase_user (SessionPhase.menu call) = some call.user
phase_user (SessionPhase.logging_off call reason) = salvaged_user call
phase_user (SessionPhase.ended call reason at) = salvaged_user call
phase_user _ = none

abbrev pub salvaged_call : CallSalvage → Option AuthenticatedCall
salvaged_call (CallSalvage.authenticated call) = some call
salvaged_call _ = none

-- The authenticated call that a phase carries: `authenticated_at`, `call_id` and `time_remaining`
-- read their field of it.
abbrev pub phase_call : SessionPhase → Option AuthenticatedCall
phase_call (SessionPhase.onboarded call) = some call
phase_call (SessionPhase.menu call) = some call
phase_call (SessionPhase.logging_off call reason) = salvaged_call call
phase_call (SessionPhase.ended call reason at) = salvaged_call call
phase_call _ = none

abbrev pub phase_logoff_reason : SessionPhase → Option LogoffReason
phase_logoff_reason (SessionPhase.logging_off call reason) = reason
phase_logoff_reason (SessionPhase.ended call reason at) = reason
phase_logoff_reason _ = none

abbrev pub phase_logoff_at : SessionPhase → Option SystemTime
phase_logoff_at (SessionPhase.ended call reason at) = at
phase_logoff_at _ = none

abbrev pub state : Session → SessionState
state s = phase_state s.phase

abbrev pub user : Session → Option User
user s = phase_user s.phase

abbrev pub call_id : Session → Option CallId
call_id s = elim (phase_call s.phase) [ none ↦ none | some call ↦ some call.call_id ]

abbrev pub authenticated_at : Session → Option SystemTime
authenticated_at s = elim (phase_call s.phase) [
  | none ↦ none
  | some call ↦ some call.authenticated_at
]

abbrev pub time_remaining : Session → Duration
time_remaining s = elim (phase_call s.phase) [ none ↦ 0 | some call ↦ call.time_remaining ]

abbrev pub logoff_reason : Session → Option LogoffReason
logoff_reason s = phase_logoff_reason s.phase

abbrev authenticated_state : SessionState → Bool
authenticated_state SessionState.onboarded = true
authenticated_state SessionState.menu = true
authenticated_state SessionState.logging_off = true
authenticated_state SessionState.ended = true
authenticated_state _ = false

-- `is_authenticated`: a user is bound, in one of these four states.
unfoldable pub is_authenticated : Session → Bool
is_authenticated s = elim (user s) [ none ↦ false | some u ↦ authenticated_state (state s) ]

abbrev not_ended : SessionState → Bool
not_ended SessionState.ended = false
not_ended _ = true

unfoldable pub is_active : Session → Bool
is_active s = not_ended (state s)

unfoldable pub new : ℕ → LogonChannel → ℕ → SystemTime → Session
unfolding Activity.new
new node_number channel online_baud connected_at = record {
  shared = record {
    node_number = node_number;
    channel = channel;
    connected_at = connected_at;
    last_input_at = connected_at;
    online_baud = online_baud;
    quick_logon = false;
    quiet_mode = false;
    display_name_type = NameType.handle;
  };
  phase = SessionPhase.connecting;
  activity = Activity.new;
  flagged_files = empty;
  persist_baseline = none;
}

unfoldable pub accept_connection :
    ℕ → LogonChannel → ℕ → SystemTime → Option Session → Result AcceptConnectionError Session
unfolding new is_active
accept_connection node_number channel online_baud connected_at existing =
    if map_or false is_active existing
    then err already_active_session
    else ok (new node_number channel online_baud connected_at)

unfoldable pub rebaseline_persisted : Session → Session
rebaseline_persisted s = record s {
  persist_baseline = elim (user s) [ none ↦ none | some u ↦ some (to_persisted u) ];
}

-- `CallSalvage::from_phase` of rust/src/domain/session/call.rs.
abbrev pub from_phase : SessionPhase → CallSalvage
from_phase (SessionPhase.authenticating attempt) = CallSalvage.identified attempt.user
from_phase (SessionPhase.onboarded call) = CallSalvage.authenticated call
from_phase (SessionPhase.menu call) = CallSalvage.authenticated call
from_phase (SessionPhase.logging_off call reason) = call
from_phase (SessionPhase.ended call reason at) = call
from_phase _ = CallSalvage.unidentified

unfoldable pub move_to_logging_off : Option LogoffReason → Session → Session
move_to_logging_off reason s = record s {
  phase = SessionPhase.logging_off (from_phase s.phase) reason;
}

abbrev pub ended_phase : SessionPhase → Option SystemTime → SessionPhase
ended_phase (SessionPhase.logging_off call reason) at = SessionPhase.ended call reason at
ended_phase (SessionPhase.ended call reason before) at = SessionPhase.ended call reason at
ended_phase phase at = SessionPhase.ended (from_phase phase) none at

unfoldable pub move_to_ended : Option SystemTime → Session → Session
move_to_ended at s = record s { phase = ended_phase s.phase at }
