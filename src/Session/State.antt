-- ===== src/Session/State.antt =====
-- The lifecycle states of rust/src/domain/session/mod.rs, the transition table of transitions.rs,
-- and the errors of errors.rs.
use nextexpress.Prelude.{Bool, true, false}

pub data LogonChannel : Type 0 where
  sysop_console local remote ftp : LogonChannel

pub data LogoffReason : Type 0 where
  new_user_rejected excessive_password_fails locked_account normal_logoff : LogoffReason
  no_conference_access out_of_time input_timeout carrier_loss : LogoffReason

pub data SessionState : Type 0 where
  connecting identifying authenticating new_user_registering : SessionState
  onboarded menu logging_off ended : SessionState

unfoldable pub is_session_transition_allowed : SessionState → SessionState → Bool
is_session_transition_allowed SessionState.connecting SessionState.identifying = true
is_session_transition_allowed SessionState.connecting SessionState.logging_off = true
is_session_transition_allowed SessionState.connecting SessionState.ended = true
is_session_transition_allowed SessionState.identifying SessionState.authenticating = true
is_session_transition_allowed SessionState.identifying SessionState.new_user_registering = true
is_session_transition_allowed SessionState.identifying SessionState.logging_off = true
is_session_transition_allowed SessionState.identifying SessionState.ended = true
is_session_transition_allowed SessionState.authenticating SessionState.onboarded = true
is_session_transition_allowed SessionState.new_user_registering SessionState.onboarded = true
is_session_transition_allowed SessionState.authenticating SessionState.ended = true
is_session_transition_allowed SessionState.new_user_registering SessionState.ended = true
is_session_transition_allowed SessionState.logging_off SessionState.ended = true
is_session_transition_allowed SessionState.authenticating SessionState.logging_off = true
is_session_transition_allowed SessionState.new_user_registering SessionState.logging_off = true
is_session_transition_allowed SessionState.onboarded SessionState.logging_off = true
is_session_transition_allowed SessionState.menu SessionState.logging_off = true
is_session_transition_allowed SessionState.onboarded SessionState.menu = true
is_session_transition_allowed _ _ = false

pub record SessionTransitionError : Type 0 where
  pub from_state : SessionState
  pub to_state : SessionState

pub data AcceptConnectionError : Type 0 where
  already_active_session : AcceptConnectionError

pub data VerifyNewUserPasswordError : Type 0 where
  wrong_state : SessionState → VerifyNewUserPasswordError
  already_verified : VerifyNewUserPasswordError

-- Errors with `WrongState` alone: `NameTypedError`, `VerifyPasswordError` as the session raises it,
-- `IdleTimeoutError`, `CarrierLostError`, `InitialiseDailyBudgetError`, `ForcePasswordResetError`
-- and `TickMinuteError`, whose other variants no session code constructs.
pub data StateError : Type 0 where
  wrong_state : SessionState → StateError

pub data EnterMenuError : Type 0 where
  wrong_state : SessionState → EnterMenuError
  password_reset_pending : EnterMenuError

pub data CompleteNewUserRegistrationError : Type 0 where
  wrong_state : SessionState → CompleteNewUserRegistrationError
  gate_not_verified : CompleteNewUserRegistrationError

pub data CompletePasswordResetError : Type 0 where
  wrong_state : SessionState → CompletePasswordResetError
  reset_not_pending : CompletePasswordResetError

pub data AutoRejoinError : Type 0 where
  wrong_state : SessionState → AutoRejoinError
  user_missing : AutoRejoinError
