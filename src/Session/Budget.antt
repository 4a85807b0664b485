-- ===== src/Session/Budget.antt =====
-- rust/src/domain/session/budget.rs: the time budget.
use nextexpress.Prelude.{Bool, false, some, Result, ok, err, if◌then◌else◌}
use nextexpress.Time.{SystemTime, Duration}
use nextexpress.Session.{Session, SessionPhase, state, move_to_logging_off}
use nextexpress.Session.State.{StateError, LogoffReason}
use nextexpress.Session.Call.{
  DailyBudgetOutcome, begin_daily_budget, consume_minute, accrue_elapsed,
}

abbrev initialise_in :
    SessionPhase → SystemTime → Duration → Session → Session × Result StateError DailyBudgetOutcome
initialise_in (SessionPhase.onboarded call) now offset s =
    let (call', outcome) = begin_daily_budget now offset call in
    (record s { phase = SessionPhase.onboarded call' }, ok outcome)
initialise_in _ now offset s = (s, err (StateError.wrong_state (state s)))

unfoldable pub initialise_daily_budget :
    SystemTime → Duration → Session → Session × Result StateError DailyBudgetOutcome
unfolding begin_daily_budget
initialise_daily_budget now offset s = initialise_in s.phase now offset s

pub data TickMinuteOutcome : Type 0 where
  continued time_expired : TickMinuteOutcome

abbrev tick : SessionPhase → Bool → Session → Session × Result StateError TickMinuteOutcome
tick phase expired s =
    let s' = record s { phase = phase } in
    if expired
    then (move_to_logging_off (some LogoffReason.out_of_time) s', ok TickMinuteOutcome.time_expired)
    else (s', ok TickMinuteOutcome.continued)

abbrev tick_in : SessionPhase → Session → Session × Result StateError TickMinuteOutcome
tick_in (SessionPhase.onboarded call) s =
    let (call', expired) = consume_minute call in tick (SessionPhase.onboarded call') expired s
tick_in (SessionPhase.menu call) s =
    let (call', expired) = consume_minute call in tick (SessionPhase.menu call') expired s
tick_in _ s = (s, err (StateError.wrong_state (state s)))

unfoldable pub tick_minute : Session → Session × Result StateError TickMinuteOutcome
unfolding consume_minute move_to_logging_off
tick_minute s = tick_in s.phase s

abbrev accrue_in : SessionPhase → SystemTime → Session → Session × Bool
accrue_in (SessionPhase.onboarded call) now s =
    let (call', exhausted) = accrue_elapsed now call in
    (record s { phase = SessionPhase.onboarded call' }, exhausted)
accrue_in (SessionPhase.menu call) now s =
    let (call', exhausted) = accrue_elapsed now call in
    (record s { phase = SessionPhase.menu call' }, exhausted)
accrue_in _ now s = (s, false)

unfoldable pub accrue_time : SystemTime → Session → Session × Bool
unfolding accrue_elapsed
accrue_time now s = accrue_in s.phase now s
