-- ===== src/Session/Clock.antt =====
-- The time accounting of rust/src/domain/session/call.rs and budget.rs.
use nextexpress.Prelude.{
  sym, ap, ◌∙◌, ◌+◌, ◌-◌, ◌≤◌, ◌<◌, ◌≡◌, ◌↔◌, refl, Bool, true, ◌||◌, arith, min, ltb,
}
use nextexpress.Time.{SystemTime, Duration, from_mins, duration_max, duration_saturating_add}
use nextexpress.User.Usage.{add_time_used_today}
use nextexpress.Session.Call.{AuthenticatedCall, accrue_elapsed, whole_minutes}

-- What an accrual at `now` does to a call.
pub record IsAccrued (now : SystemTime) (call call' : AuthenticatedCall) (exhausted : Bool)
    : Type 0 where
  tick_rises : call.last_tick_at ≤ call'.last_tick_at
  tick_reached : call'.last_tick_at ≤ now
  under_a_minute : now < call'.last_tick_at + from_mins 1
  time_falls : call'.time_remaining ≡ call.time_remaining - (call'.last_tick_at - call.last_tick_at)
  over_budget : (exhausted ≡ true) ↔ (call.time_remaining < call'.last_tick_at - call.last_tick_at)

-- An accrual at an instant that is not before the last tick moves the tick up to less than a minute
-- before that instant and never past it, takes what the tick moved from the remaining time,
-- stopping at zero, and reports an exhausted budget exactly if it was more than remained.
pub accrue_elapsed_lem :
    (now : SystemTime) (call : AuthenticatedCall)
    → call.last_tick_at ≤ now
    → IsAccrued now call (accrue_elapsed now call).0 (accrue_elapsed now call).1
unfolding accrue_elapsed
accrue_elapsed_lem now call h = record {
  tick_rises = ground arith;
  tick_reached = ground arith;
  under_a_minute = ground arith;
  time_falls = ground arith;
  over_budget = ground arith;
}

-- Two accruals, one after the other.
abbrev pub accrue_twice : SystemTime → SystemTime → AuthenticatedCall → AuthenticatedCall × Bool
accrue_twice early now call =
    let (call', exhausted) = accrue_elapsed early call in
    let (call'', exhausted') = accrue_elapsed now call' in (call'', exhausted || exhausted')

minutes_split :
    (last early now : SystemTime)
    → last ≤ early
    → early ≤ now
    → whole_minutes now last
      ≡ whole_minutes early last + whole_minutes now (last + whole_minutes early last)
minutes_split last early now h k = ground arith

-- An accrual of a duration, whatever the clock said.
unfoldable spend : Duration → AuthenticatedCall → AuthenticatedCall × Bool
spend consumed call = (
  record call {
    user = record call.user {
      usage = record call.user.usage {
        time_used_today = duration_saturating_add call.user.usage.time_used_today consumed;
      };
    };
    time_remaining = call.time_remaining - consumed;
    last_tick_at = call.last_tick_at + consumed;
  },
  ltb call.time_remaining consumed,
)

spend_twice :
    (a b : Duration) (call : AuthenticatedCall)
    → ((spend b (spend a call).0).0 ≡ (spend (a + b) call).0)
      × (((spend a call).1 || (spend b (spend a call).0).1) ≡ (spend (a + b) call).1)
unfolding spend
spend_twice a b call = (
  (let used : min (min (call.user.usage.time_used_today + a) duration_max + b) duration_max
          ≡ min (call.user.usage.time_used_today + (a + b)) duration_max =
        ground arith in
      let left : call.time_remaining - a - b ≡ call.time_remaining - (a + b) = omega arith in
      let tick : call.last_tick_at + a + b ≡ call.last_tick_at + (a + b) = omega arith in
      rw used (rw left (rw tick refl))),
  ground arith,
)

accrue_elapsed-spend :
    (now : SystemTime) (call : AuthenticatedCall)
    → accrue_elapsed now call ≡ spend (whole_minutes now call.last_tick_at) call
unfolding accrue_elapsed add_time_used_today spend
accrue_elapsed-spend now call = refl

-- How often the clock is read makes no difference: two accruals charge the same time, keep the same
-- tick, and find the budget exhausted in the same cases, as one accrual at the later instant, if
-- the clock does not run backwards.
pub accrue_elapsed-accrue_elapsed :
    (early now : SystemTime) (call : AuthenticatedCall)
    → call.last_tick_at ≤ early
    → early ≤ now
    → accrue_twice early now call ≡ accrue_elapsed now call
unfolding accrue_elapsed spend add_time_used_today
accrue_elapsed-accrue_elapsed early now call h k =
    let a = whole_minutes early call.last_tick_at in
    let b = whole_minutes now (call.last_tick_at + a) in
    let (call_eq, flag_eq) = spend_twice a b call in
    let sum : whole_minutes now call.last_tick_at ≡ a + b =
      minutes_split call.last_tick_at early now h k in
    pair_eq call_eq flag_eq ∙ sym (ap (λ d. spend d call) sum)
  where
    pair_eq :
        {c d : AuthenticatedCall} {x y : Bool}
        → c ≡ d
        → x ≡ y
        → ◌≡◌ {A = AuthenticatedCall × Bool} (c, x) (d, y)
    pair_eq e f = cc
