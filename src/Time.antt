-- ===== src/Time.antt =====
-- std::time as rust/src/domain uses it, and `floor_to_day` of
-- rust/src/domain/session/log_format.rs.
-- A `SystemTime` counts nanoseconds from the earliest instant that the clock can name, which is
-- 2^63 seconds before the Unix epoch; a `Duration` counts nanoseconds.
pub mod Day
use nextexpress.Prelude.{ℕ, ◌+◌, ◌-◌, ◌*◌, ◌/◌, ◌^◌, min, Option, none, some, leb, if◌then◌else◌}
use nextexpress.Prelude.Int.{ℤ, pos, negsuc, pos_part, neg_part, sub_ℕ, ◌-ℤ◌}

abbrev pub SystemTime : Type 0
SystemTime = ℕ

abbrev pub Duration : Type 0
Duration = ℕ

abbrev pub nanos_per_sec : ℕ
nanos_per_sec = 1000000000

abbrev pub as_secs : Duration → ℕ
as_secs d = d / nanos_per_sec

abbrev pub from_secs : ℕ → Duration
from_secs s = s * nanos_per_sec

abbrev pub from_mins : ℕ → Duration
from_mins m = from_secs (m * 60)

-- `Duration::MAX`: a u64 of seconds and the largest nanosecond part.
abbrev pub duration_max : Duration
duration_max = 2 ^ 64 * nanos_per_sec - 1

abbrev pub duration_saturating_add : Duration → Duration → Duration
duration_saturating_add a b = min (a + b) duration_max

abbrev pub unix_epoch : SystemTime
unix_epoch = 2 ^ 63 * nanos_per_sec

-- `now.duration_since(earlier)`: the error carries the distance the other way.
pub data Since : Type 0 where
  ok : Duration → Since
  err : Duration → Since

abbrev pub duration_since : SystemTime → SystemTime → Since
duration_since now earlier =
    if leb earlier now then Since.ok (now - earlier) else Since.err (earlier - now)

-- `.unwrap_or(Duration::ZERO)`
abbrev pub or_zero : Since → Duration
or_zero (Since.ok d) = d
or_zero (Since.err d) = 0

abbrev pub i64_max : ℕ
i64_max = 2 ^ 63 - 1

abbrev pub saturating_i64 : ℕ → ℕ
saturating_i64 secs = min secs i64_max

-- `i64` subtraction of two values in range, which wraps below `i64::MIN`; no call here can pass
-- `i64::MAX`, since the subtrahend is not negative.
abbrev pub wrap_i64 : ℤ → ℤ
wrap_i64 (pos n) = pos n
wrap_i64 (negsuc n) = if leb n i64_max then negsuc n else pos (2 ^ 64 - n - 1)

-- Rounds towards minus infinity, as `div_euclid` by a positive number does.
abbrev pub div_euclid : ℤ → ℕ → ℤ
div_euclid (pos n) d = pos (n / d)
div_euclid (negsuc n) d = negsuc (n / d)

abbrev pub epoch_secs : Since → ℤ
epoch_secs (Since.ok d) = pos (saturating_i64 (as_secs d))
epoch_secs (Since.err d) = sub_ℕ 0 (saturating_i64 (as_secs d))

unfoldable pub floor_to_day : SystemTime → Duration → ℤ
floor_to_day at offset =
    div_euclid
      (wrap_i64
        (epoch_secs (duration_since at unix_epoch) -ℤ pos (saturating_i64 (as_secs offset))))
      86400
