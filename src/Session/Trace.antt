-- ===== src/Session/Trace.antt =====
-- Histories of a session: each event is a call of one operation of rust/src/domain/session, with
-- the policy and the catalogue of the deployment. `none` is a panic.
pub mod Follows
pub mod Invariant
pub mod Total
pub mod Ending
use nextexpress.Prelude.{ℕ, Bool, Option, none, some, List, [], ◌∷◌, Result, ◌>>=◌}
use nextexpress.Text.{Text}
use nextexpress.Time.{SystemTime}
use nextexpress.Password.{PasswordHashKind}
use nextexpress.Conference.{Conference}
use nextexpress.User.{User}
use nextexpress.Session.{Session, rebaseline_persisted}
use nextexpress.Session.Policy.{SessionPolicy}
use nextexpress.Session.Call.{CallId}
use nextexpress.Session.Identity.{prompt_for_name, record_identified_user, record_unknown_name}
use nextexpress.Session.Budget.{tick_minute, accrue_time}
use nextexpress.Session.Onboarding.{apply_password_change}
use nextexpress.Session.Lockout.{apply_password_match, apply_password_mismatch}
use nextexpress.Session.Lifecycle.{
  record_input, apply_carrier_loss, apply_idle_timeout, user_requests_logoff, expire_time_budget,
  finalise_logoff, enter_menu,
}
use nextexpress.Session.Registration.{
  record_new_user_request, apply_new_user_password_attempt, complete_new_user_registration,
}
use nextexpress.Session.Conferencing.{
  auto_rejoin_conference, explicit_join_conference, start_conference_scan, step_conference_scan,
  attach_visit,
}

pub record Deployment : Type 0 where
  pub policy : SessionPolicy
  pub max_gate_attempts : ℕ
  pub conferences : List Conference

pub data Event : Type 0 where
  input : SystemTime → Event
  prompts : Event
  identified : Text → User → Event
  unknown_name : SystemTime → Event
  requests_new : Bool → Bool → Event
  gate_attempt : Bool → SystemTime → Event
  registered : User → SystemTime → CallId → Event
  password_matches : SystemTime → CallId → Event
  password_fails : SystemTime → Event
  password_changes : Text → Option Text → PasswordHashKind → SystemTime → Event
  enters_menu : SystemTime → Event
  rejoins : SystemTime → Event
  joins : ℕ → Option ℕ → SystemTime → Event
  starts_scan : SystemTime → Event
  steps_scan : SystemTime → Event
  visits : ℕ → ℕ → SystemTime → Event
  ticks : Event
  accrues : SystemTime → Event
  idles : Bool → Event
  loses_carrier : Event
  requests_logoff : Event
  time_expires : Event
  finalises : SystemTime → Event
  rebaselines : Event

-- The session that an operation leaves, whatever its result.
abbrev pub left {ℓ} : {R : Type ℓ} → Option (Session × R) → Option Session
left none = none
left (some (s, r)) = some s

unfoldable pub step : Deployment → Session → Event → Option Session
step d s (input at) = some (record_input at s)
step d s prompts = some (prompt_for_name s).0
step d s (identified typed u) = some (record_identified_user typed u s).0
step d s (unknown_name now) = some (record_unknown_name now s).0
step d s (requests_new allow required) = some (record_new_user_request allow required s).0
step d s (gate_attempt matches now) =
    some (apply_new_user_password_attempt matches d.max_gate_attempts now s).0
step d s (registered u now call_id) = left (complete_new_user_registration u d.policy now call_id s)
step d s (password_matches now call_id) = left (apply_password_match d.policy now call_id s)
step d s (password_fails now) = some (apply_password_mismatch d.policy now s).0
step d s (password_changes hash salt kind now) = some (apply_password_change hash salt kind now s).0
step d s (enters_menu now) = some (enter_menu now s).0
step d s (rejoins now) = left (auto_rejoin_conference d.conferences now s)
step d s (joins target requested now) =
    left (explicit_join_conference target requested d.conferences now s)
step d s (starts_scan now) = left (start_conference_scan d.conferences now s)
step d s (steps_scan now) = left (step_conference_scan d.conferences now s)
step d s (visits conference msgbase now) = some (attach_visit conference msgbase now s)
step d s ticks = some (tick_minute s).0
step d s (accrues now) = some (accrue_time now s).0
step d s (idles treat_as_logoff) = some (apply_idle_timeout treat_as_logoff s).0
step d s loses_carrier = some (apply_carrier_loss s).0
step d s requests_logoff = some (user_requests_logoff s).0
step d s time_expires = some (expire_time_budget s).0
step d s (finalises now) = some (finalise_logoff now s).0
step d s rebaselines = some (rebaseline_persisted s)

unfoldable pub run : Deployment → Session → List Event → Option Session
run d s [] = some s
run d s (e ∷ es) = do t ← step d s e; run d t es
