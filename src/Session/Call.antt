-- ===== src/Session/Call.antt =====
-- rust/src/domain/session/call.rs: what a session carries in each phase of a call, and
-- `daily_budget_outcome` of budget.rs.
use nextexpress.Prelude.{
  ℕ, ◌+◌, ◌-◌, ◌*◌, ◌/◌, Bool, true, not, Option, none, some, Result, ok, err, ◌==◌, ltb, leb,
  saturating_add, if◌then◌else◌,
}
use nextexpress.Prelude.Int.{◌==ℤ◌}
use nextexpress.Text.{Text}
use nextexpress.Time.{
  SystemTime, Duration, from_mins, from_secs, as_secs, duration_since, or_zero, floor_to_day,
}
use nextexpress.User.{User}
use nextexpress.User.Account.{bump_invalid_attempts}
use nextexpress.User.Usage.{reset_daily_counters, bump_times_called_today, add_time_used_today}

-- The identity bits, which the rules only pass on.
abbrev pub CallId : Type 0
CallId = ℕ

pub record AuthenticatedCall : Type 0 where
  pub call_id : CallId
  pub user : User
  pub authenticated_at : SystemTime
  pub time_remaining : Duration
  pub last_tick_at : SystemTime

unfoldable pub new : CallId → User → SystemTime → AuthenticatedCall
new call_id user authenticated_at = record {
  call_id = call_id;
  user = user;
  authenticated_at = authenticated_at;
  time_remaining = 0;
  last_tick_at = authenticated_at;
}

pub data DailyBudgetOutcome : Type 0 where
  new_day same_day : DailyBudgetOutcome

unfoldable pub daily_budget_outcome : Option SystemTime → SystemTime → Duration → DailyBudgetOutcome
unfolding floor_to_day
daily_budget_outcome none now offset = DailyBudgetOutcome.new_day
daily_budget_outcome (some t) now offset =
    if floor_to_day t offset ==ℤ floor_to_day now offset
    then DailyBudgetOutcome.same_day
    else DailyBudgetOutcome.new_day

unfoldable pub roll_counters : DailyBudgetOutcome → User → User
unfolding reset_daily_counters bump_times_called_today
roll_counters DailyBudgetOutcome.new_day user = record user {
  usage = reset_daily_counters user.usage;
}
roll_counters DailyBudgetOutcome.same_day user = record user {
  usage = bump_times_called_today user.usage;
}

unfoldable pub begin_daily_budget :
    SystemTime → Duration → AuthenticatedCall → AuthenticatedCall × DailyBudgetOutcome
unfolding roll_counters
begin_daily_budget now offset call =
    let outcome = daily_budget_outcome call.user.usage.last_call now offset in
    let user = roll_counters outcome call.user in
    (
      record call {
        user = user;
        time_remaining = user.usage.time_limit_per_call;
        last_tick_at = now;
      },
      outcome,
    )

-- One minute: the new call, and whether the budget is now exhausted.
unfoldable pub consume_minute : AuthenticatedCall → AuthenticatedCall × Bool
unfolding add_time_used_today
consume_minute call =
    let remaining = call.time_remaining - from_mins 1 in
    (
      record call {
        user = record call.user { usage = add_time_used_today (from_mins 1) call.user.usage };
        time_remaining = remaining;
      },
      remaining == 0,
    )

-- The whole minutes since the last accrual.
abbrev pub whole_minutes : SystemTime → SystemTime → Duration
whole_minutes now last_tick_at =
    from_secs (as_secs (or_zero (duration_since now last_tick_at)) / 60 * 60)

unfoldable pub accrue_elapsed : SystemTime → AuthenticatedCall → AuthenticatedCall × Bool
unfolding add_time_used_today
accrue_elapsed now call =
    let consumed = whole_minutes now call.last_tick_at in
    (
      record call {
        user = record call.user { usage = add_time_used_today consumed call.user.usage };
        time_remaining = call.time_remaining - consumed;
        last_tick_at = call.last_tick_at + consumed;
      },
      ltb call.time_remaining consumed,
    )

pub data NewUserPasswordOutcome : Type 0 where
  verified mismatch too_many_failures : NewUserPasswordOutcome

pub record NewUserGate : Type 0 where
  pub is_verified : Bool
  pub attempts : ℕ

unfoldable pub new_gate : Bool → NewUserGate
new_gate password_required = record { is_verified = not password_required; attempts = 0 }

pub data GateAlreadyVerified : Type 0 where
  gate_already_verified : GateAlreadyVerified

unfoldable pub record_attempt :
    Bool → ℕ → NewUserGate → NewUserGate × Result GateAlreadyVerified NewUserPasswordOutcome
record_attempt matches max_attempts gate =
    let attempts = saturating_add gate.attempts 1 in
    if gate.is_verified
    then (gate, err gate_already_verified)
    else if matches
    then (record gate { is_verified = true }, ok NewUserPasswordOutcome.verified)
    else if leb max_attempts attempts
    then (record gate { attempts = attempts }, ok NewUserPasswordOutcome.too_many_failures)
    else (record gate { attempts = attempts }, ok NewUserPasswordOutcome.mismatch)

pub record AuthenticatingAttempt : Type 0 where
  pub typed_name : Text
  pub user : User
  pub password_retry_count : ℕ

unfoldable pub record_password_failure : AuthenticatingAttempt → AuthenticatingAttempt
unfolding bump_invalid_attempts
record_password_failure attempt = record attempt {
  user = record attempt.user { account = bump_invalid_attempts attempt.user.account };
  password_retry_count = saturating_add attempt.password_retry_count 1;
}

pub data CallSalvage : Type 0 where
  unidentified : CallSalvage
  identified : User → CallSalvage
  authenticated : AuthenticatedCall → CallSalvage
