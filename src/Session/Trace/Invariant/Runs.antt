-- ===== src/Session/Trace/Invariant/Runs.antt =====
-- The promises of a session, and the operations and histories of rust/src/domain/session.
use nextexpress.Prelude.{
  subst, ℕ, ◌≡◌, inl, inr, Bool, false, Option, some, List, [], ◌∷◌, arith, if◌then◌else◌,
  Option-cases, ok, err, map_or,
}
use nextexpress.Time.{SystemTime}
use nextexpress.Session.{accept_connection, is_active, Session, rebaseline_persisted, new}
use nextexpress.Session.State.{LogonChannel, already_active_session}
use nextexpress.Session.Activity.{attach, new_visit}
use nextexpress.Session.Identity.{prompt_for_name, record_identified_user, record_unknown_name}
use nextexpress.Session.Budget.{tick_minute, accrue_time}
use nextexpress.Session.Onboarding.{apply_password_change}
use nextexpress.Session.Lockout.{apply_password_match, apply_password_mismatch}
use nextexpress.Session.Lifecycle.{
  record_input, apply_carrier_loss, apply_idle_timeout, user_requests_logoff, expire_time_budget,
  finalise_logoff, enter_menu,
}
use nextexpress.Session.Registration.{
  record_new_user_request, apply_new_user_password_attempt, complete_new_user_registration,
}
use nextexpress.Session.Conferencing.{
  auto_rejoin_conference, explicit_join_conference, start_conference_scan, step_conference_scan,
  attach_visit,
}
use nextexpress.Session.Trace.{
  Deployment, Event, input, prompts, identified, unknown_name, requests_new, gate_attempt,
  registered, password_matches, password_fails, password_changes, enters_menu, rejoins, joins,
  starts_scan, steps_scan, visits, ticks, accrues, idles, loses_carrier, requests_logoff,
  time_expires, finalises, rebaselines, step, run,
}
use nextexpress.Session.Trace.Invariant.{IsSession, open_visits-attach}
use nextexpress.Session.Trace.Invariant.Joins.{
  some_eq, left-Leaves, auto_rejoin_conference-Leaves, explicit_join_conference-Leaves,
  start_conference_scan-Leaves, step_conference_scan-Leaves,
}

step-IsSession :
    (d : Deployment) (s : Session) (e : Event) {t : Session}
    → step d s e ≡ some t
    → IsSession d s
    → IsSession d t
unfolding step
step-IsSession d s (input at) h v = unfold record_input in ground arith
step-IsSession d s prompts h v = unfold prompt_for_name in ground arith
step-IsSession d s (identified typed u) h v = unfold record_identified_user in ground arith
step-IsSession d s (unknown_name now) h v = unfold record_unknown_name in ground arith
step-IsSession d s (requests_new allow required) h v =
    unfold record_new_user_request in ground arith
step-IsSession d s (gate_attempt matches now) h v =
    unfold apply_new_user_password_attempt in ground arith
step-IsSession d s (registered u now call_id) h v =
    unfold complete_new_user_registration in ground arith
step-IsSession d s (password_matches now call_id) h v = unfold apply_password_match in ground arith
step-IsSession d s (password_fails now) h v = unfold apply_password_mismatch in ground arith
step-IsSession d s (password_changes hash salt kind now) h v =
    unfold apply_password_change in ground arith
step-IsSession d s (enters_menu now) h v = unfold enter_menu in ground arith
step-IsSession d s (rejoins now) h v =
    left-Leaves (IsSession d) (auto_rejoin_conference d.conferences now s) h
      (auto_rejoin_conference-Leaves d.conferences now s v)
step-IsSession d s (joins target requested now) h v =
    left-Leaves (IsSession d) (explicit_join_conference target requested d.conferences now s) h
      (explicit_join_conference-Leaves target requested d.conferences now s v)
step-IsSession d s (starts_scan now) h v =
    left-Leaves (IsSession d) (start_conference_scan d.conferences now s) h
      (start_conference_scan-Leaves d.conferences now s v)
step-IsSession d s (steps_scan now) h v =
    left-Leaves (IsSession d) (step_conference_scan d.conferences now s) h
      (step_conference_scan-Leaves d.conferences now s v)
step-IsSession d s (visits conference msgbase now) h v =
    unfold attach_visit attach in
    ground (arith, open_visits-attach now (new_visit conference msgbase now) s.activity.visits)
step-IsSession d s ticks h v = unfold tick_minute in ground arith
step-IsSession d s (accrues now) h v = unfold accrue_time in ground arith
step-IsSession d s (idles treat_as_logoff) h v = unfold apply_idle_timeout in ground arith
step-IsSession d s loses_carrier h v = unfold apply_carrier_loss in ground arith
step-IsSession d s requests_logoff h v = unfold user_requests_logoff in ground arith
step-IsSession d s time_expires h v = unfold expire_time_budget in ground arith
step-IsSession d s (finalises now) h v = unfold finalise_logoff in ground arith
step-IsSession d s rebaselines h v = unfold rebaseline_persisted in ground arith

new-IsSession :
    (d : Deployment) (node : ℕ) (channel : LogonChannel) (baud : ℕ) (now : SystemTime)
    → IsSession d (new node channel baud now)
unfolding new
new-IsSession d node channel baud now = ground arith

run-IsSession :
    (d : Deployment) (s : Session) (es : List Event) {t : Session}
    → run d s es ≡ some t
    → IsSession d s
    → IsSession d t
unfolding run
run-IsSession d s [] h v = subst (IsSession d) (some_eq h) v
run-IsSession d s (e ∷ es) {t} h v = elim (Option-cases (step d s e)) [
  | inl panics ↦ ground (arith, panics)
  | inr (u, stepped) ↦
      run-IsSession d u es {t = t} (ground (arith, stepped)) (step-IsSession d s e stepped v)
]

-- Whatever happens to a session that a connection opened: fewer than five names were refused while
-- it asks for one, the password and gate counts are below their limits, a user past the login is
-- not locked, has an access level of 2 or more and, at the menu, no reset pending; a session that
-- ends has a reason, one that ended the time; a known user has a baseline, and at most one visit is
-- open.
pub accept_connection-IsSession :
    (d : Deployment) (node : ℕ) (channel : LogonChannel) (baud : ℕ) (now : SystemTime)
    (existing : Option Session) (s t : Session) (es : List Event)
    → accept_connection node channel baud now existing ≡ ok s
    → run d s es ≡ some t
    → IsSession d t
unfolding accept_connection
accept_connection-IsSession d node channel baud now existing s t es h k = run-IsSession d s es k (
    subst (IsSession d) (accepted (map_or false is_active existing) h)
      (new-IsSession d node channel baud now))
  where
    accepted :
        (b : Bool)
        → (if b then err already_active_session else ok (new node channel baud now)) ≡ ok s
        → new node channel baud now ≡ s
    accepted b h = ground arith
