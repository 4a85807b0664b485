-- ===== src/Session/Lifecycle.antt =====
-- Input, logoff and menu entry of rust/src/domain/session/lifecycle.rs, with the caller-log lines
-- of log_format.rs.
use nextexpress.Prelude.{
  Bool, true, false, Option, none, some, ◌++◌, Result, ok, err, codes, if◌then◌else◌,
}
use nextexpress.Text.{Text, decimal}
use nextexpress.Time.{SystemTime}
use nextexpress.CallerLog.{CallerLog}
use nextexpress.User.{User}
use nextexpress.User.Usage.{record_last_call, bump_times_called}
use nextexpress.Session.{
  Session, SessionPhase, state, user, logoff_reason, move_to_logging_off, move_to_ended,
}
use nextexpress.Session.State.{
  SessionState, LogonChannel, LogoffReason, StateError, SessionTransitionError, EnterMenuError,
}
use nextexpress.Session.Call.{CallSalvage}

unfoldable pub record_input : SystemTime → Session → Session
record_input at s = record s { shared = record s.shared { last_input_at = at } }

abbrev pub may_lose_carrier : SessionState → Bool
may_lose_carrier SessionState.logging_off = false
may_lose_carrier SessionState.ended = false
may_lose_carrier _ = true

unfoldable pub apply_carrier_loss : Session → Session × Result StateError (Unit {0})
unfolding move_to_logging_off
apply_carrier_loss s =
    if may_lose_carrier (state s)
    then (move_to_logging_off (some LogoffReason.carrier_loss) s, ok tt)
    else (s, err (StateError.wrong_state (state s)))

abbrev may_idle_out : SessionState → Bool
may_idle_out SessionState.identifying = true
may_idle_out SessionState.authenticating = true
may_idle_out SessionState.new_user_registering = true
may_idle_out SessionState.onboarded = true
may_idle_out SessionState.menu = true
may_idle_out _ = false

abbrev idle_reason : Bool → LogoffReason
idle_reason true = LogoffReason.input_timeout
idle_reason false = LogoffReason.carrier_loss

unfoldable pub apply_idle_timeout : Bool → Session → Session × Result StateError (Unit {0})
unfolding move_to_logging_off
apply_idle_timeout treat_as_logoff s =
    if may_idle_out (state s)
    then (move_to_logging_off (some (idle_reason treat_as_logoff)) s, ok tt)
    else (s, err (StateError.wrong_state (state s)))

abbrev pub is_onboarded_or_menu : SessionState → Bool
is_onboarded_or_menu SessionState.onboarded = true
is_onboarded_or_menu SessionState.menu = true
is_onboarded_or_menu _ = false

abbrev log_off : LogoffReason → Session → Session × Result SessionTransitionError (Unit {0})
log_off reason s =
    if is_onboarded_or_menu (state s)
    then (move_to_logging_off (some reason) s, ok tt)
    else (s, err (record { from_state = state s; to_state = SessionState.logging_off }))

unfoldable pub user_requests_logoff : Session → Session × Result SessionTransitionError (Unit {0})
unfolding move_to_logging_off
user_requests_logoff s = log_off LogoffReason.normal_logoff s

unfoldable pub expire_time_budget : Session → Session × Result SessionTransitionError (Unit {0})
unfolding move_to_logging_off
expire_time_budget s = log_off LogoffReason.out_of_time s

abbrev handle_of : Option User → Text
handle_of none = codes "?"
handle_of (some u) = u.handle

abbrev channel_name : LogonChannel → Text
channel_name LogonChannel.sysop_console = codes "sysop_console"
channel_name LogonChannel.local = codes "local"
channel_name LogonChannel.remote = codes "remote"
channel_name LogonChannel.ftp = codes "ftp"

unfoldable pub format_logon_line : Session → Text
format_logon_line s =
    codes "Logon: "
    ++ handle_of (user s)
    ++ codes " (node "
    ++ decimal s.shared.node_number
    ++ codes ", "
    ++ decimal s.shared.online_baud
    ++ codes " baud, "
    ++ channel_name s.shared.channel
    ++ codes ")"

abbrev reason_name : Option LogoffReason → Text
reason_name (some LogoffReason.normal_logoff) = codes "normal_logoff"
reason_name (some LogoffReason.new_user_rejected) = codes "new_user_rejected"
reason_name (some LogoffReason.excessive_password_fails) = codes "excessive_password_fails"
reason_name (some LogoffReason.locked_account) = codes "locked_account"
reason_name (some LogoffReason.out_of_time) = codes "out_of_time"
reason_name (some LogoffReason.input_timeout) = codes "input_timeout"
reason_name (some LogoffReason.carrier_loss) = codes "carrier_loss"
reason_name (some LogoffReason.no_conference_access) = codes "no_conference_access"
reason_name none = codes "unknown"

unfoldable pub format_logoff_line : Session → Text
format_logoff_line s =
    codes "Logoff: "
    ++ handle_of (user s)
    ++ codes " (node "
    ++ decimal s.shared.node_number
    ++ codes ", reason "
    ++ reason_name (logoff_reason s)
    ++ codes ")"

abbrev stamp_user : SystemTime → User → User
stamp_user now u = record u { usage = record_last_call now u.usage }

-- `user_mut` of the salvaged call, and `record_last_call` on it.
abbrev pub stamp_last_call : SystemTime → CallSalvage → CallSalvage
stamp_last_call now CallSalvage.unidentified = CallSalvage.unidentified
stamp_last_call now (CallSalvage.identified u) = CallSalvage.identified (stamp_user now u)
stamp_last_call now (CallSalvage.authenticated call) =
    CallSalvage.authenticated (record call { user = stamp_user now call.user })

abbrev log_line : SystemTime → Text → Session → CallerLog
log_line now text s = record {
  session_node = s.shared.node_number;
  at = now;
  text = text;
  is_password_failure = false;
}

abbrev finalise_in :
    SessionPhase → SystemTime → Session → Session × Result SessionTransitionError CallerLog
finalise_in (SessionPhase.logging_off call reason) now s =
    let stamped = record s { phase = SessionPhase.logging_off (stamp_last_call now call) reason } in
    (move_to_ended (some now) stamped, ok (log_line now (format_logoff_line stamped) stamped))
finalise_in _ now s = (s, err (record { from_state = state s; to_state = SessionState.ended }))

unfoldable pub finalise_logoff :
    SystemTime → Session → Session × Result SessionTransitionError CallerLog
unfolding record_last_call move_to_ended
finalise_logoff now s = finalise_in s.phase now s

abbrev enter_in : SessionPhase → SystemTime → Session → Session × Result EnterMenuError CallerLog
enter_in (SessionPhase.onboarded call) now s =
    let bumped = record call.user { usage = bump_times_called call.user.usage } in
    let entered = record s { phase = SessionPhase.menu (record call { user = bumped }) } in
    if call.user.credentials.reset
    then (s, err EnterMenuError.password_reset_pending)
    else (entered, ok (log_line now (format_logon_line entered) entered))
enter_in _ now s = (s, err (EnterMenuError.wrong_state (state s)))

unfoldable pub enter_menu : SystemTime → Session → Session × Result EnterMenuError CallerLog
unfolding bump_times_called
enter_menu now s = enter_in s.phase now s
