-- ===== src/Time/Day.antt =====
-- What `floor_to_day` of rust/src/domain/session/log_format.rs says of two logon times.
use nextexpress.Prelude.{◌+◌, ◌-◌, ◌/◌, ◌≤◌, ◌<◌, ◌≡◌, ap, arith}
use nextexpress.Prelude.Int.{pos, pos_part}
use nextexpress.Time.{SystemTime, Duration, as_secs, from_secs, unix_epoch, i64_max, floor_to_day}

-- The instants whose whole seconds past the epoch fit an i64 and reach the reset offset.
pub record InRange (at : SystemTime) (offset : Duration) : Type 0 where
  pub after_epoch : unix_epoch ≤ at
  pub after_offset : as_secs offset ≤ as_secs (at - unix_epoch)
  pub fits : as_secs (at - unix_epoch) ≤ i64_max

-- In that range the day is the number of whole days between the offset and the instant.
pub floor_to_day-InRange :
    (at : SystemTime) (offset : Duration)
    → InRange at offset
    → floor_to_day at offset ≡ pos ((as_secs (at - unix_epoch) - as_secs offset) / 86400)
unfolding floor_to_day
floor_to_day-InRange at offset h = ground arith

-- Two instants on one accounting day are less than 24 hours apart.
pub same_day_apart :
    (a b : SystemTime) (offset : Duration)
    → InRange a offset
    → InRange b offset
    → floor_to_day a offset ≡ floor_to_day b offset
    → b < a + from_secs 86400
same_day_apart a b offset ha hb same = omega (
  arith,
  ap pos_part (floor_to_day-InRange a offset ha),
  ap pos_part (floor_to_day-InRange b offset hb),
  ap pos_part same,
)
