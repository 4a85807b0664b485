-- ===== src/User/Usage.antt =====
-- rust/src/domain/user/usage_accounting.rs: logon counters and the time budget.
use nextexpress.Prelude.{ℕ, Option, none, some, saturating_add}
use nextexpress.Time.{SystemTime, Duration, from_mins, duration_saturating_add}

pub record UsageAccounting : Type 0 where
  pub times_called : ℕ
  pub last_call : Option SystemTime
  pub time_limit_per_call : Duration
  pub time_limit_per_day : Duration
  pub time_used_today : Duration
  pub times_called_today : ℕ

unfoldable pub new : UsageAccounting
new = record {
  times_called = 0;
  last_call = none;
  time_limit_per_call = 0;
  time_limit_per_day = 0;
  time_used_today = 0;
  times_called_today = 0;
}

unfoldable pub for_fresh_registration : SystemTime → UsageAccounting
for_fresh_registration now = record {
  times_called = 0;
  last_call = some now;
  time_limit_per_call = from_mins 30;
  time_limit_per_day = from_mins 60;
  time_used_today = 0;
  times_called_today = 0;
}

unfoldable pub bump_times_called : UsageAccounting → UsageAccounting
bump_times_called usage = record usage { times_called = saturating_add usage.times_called 1 }

unfoldable pub record_last_call : SystemTime → UsageAccounting → UsageAccounting
record_last_call at usage = record usage { last_call = some at }

unfoldable set_time_limits : Duration → Duration → UsageAccounting → UsageAccounting
set_time_limits per_call per_day usage = record usage {
  time_limit_per_call = per_call;
  time_limit_per_day = per_day;
}

unfoldable pub reset_daily_counters : UsageAccounting → UsageAccounting
reset_daily_counters usage = record usage { times_called_today = 0; time_used_today = 0 }

unfoldable pub bump_times_called_today : UsageAccounting → UsageAccounting
bump_times_called_today usage = record usage {
  times_called_today = saturating_add usage.times_called_today 1;
}

unfoldable pub add_time_used_today : Duration → UsageAccounting → UsageAccounting
add_time_used_today elapsed usage = record usage {
  time_used_today = duration_saturating_add usage.time_used_today elapsed;
}
