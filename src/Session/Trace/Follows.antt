-- ===== src/Session/Trace/Follows.antt =====
-- Every event follows the transition table of rust/src/domain/session/transitions.rs.
use nextexpress.Prelude.{ℕ, ◌<◌, ◌≡◌, ◌⊎◌, inl, inr, true, some, List, [], ◌∷◌, arith, Option-cases}
use nextexpress.Session.{Session, state, rebaseline_persisted}
use nextexpress.Session.State.{SessionState, is_session_transition_allowed}
use nextexpress.Session.Identity.{prompt_for_name, record_identified_user, record_unknown_name}
use nextexpress.Session.Budget.{tick_minute, accrue_time}
use nextexpress.Session.Onboarding.{apply_password_change}
use nextexpress.Session.Lockout.{apply_password_match, apply_password_mismatch}
use nextexpress.Session.Lifecycle.{
  record_input, apply_carrier_loss, apply_idle_timeout, user_requests_logoff, expire_time_budget,
  finalise_logoff, enter_menu,
}
use nextexpress.Session.Registration.{
  record_new_user_request, apply_new_user_password_attempt, complete_new_user_registration,
}
use nextexpress.Session.Conferencing.{
  auto_rejoin_conference, explicit_join_conference, start_conference_scan, step_conference_scan,
  attach_visit,
}
use nextexpress.Session.Trace.{
  Deployment, Event, input, prompts, identified, unknown_name, requests_new, gate_attempt,
  registered, password_matches, password_fails, password_changes, enters_menu, rejoins, joins,
  starts_scan, steps_scan, visits, ticks, accrues, idles, loses_carrier, requests_logoff,
  time_expires, finalises, rebaselines, step, run,
}

-- The state stays, or moves as the table allows.
abbrev pub Follows : SessionState → SessionState → Type 0
Follows a b = (a ≡ b) ⊎ (is_session_transition_allowed a b ≡ true)

-- Whatever the event and its result, the session stays in its state or takes a transition that the
-- table allows.
pub step-Follows :
    (d : Deployment) (s : Session) (e : Event) {t : Session}
    → step d s e ≡ some t
    → Follows (state s) (state t)
unfolding step is_session_transition_allowed
step-Follows d s (input at) h = unfold record_input in ground arith
step-Follows d s prompts h = unfold prompt_for_name in ground arith
step-Follows d s (identified typed u) h = unfold record_identified_user in ground arith
step-Follows d s (unknown_name now) h = unfold record_unknown_name in ground arith
step-Follows d s (requests_new allow required) h = unfold record_new_user_request in ground arith
step-Follows d s (gate_attempt matches now) h =
    unfold apply_new_user_password_attempt in ground arith
step-Follows d s (registered u now call_id) h =
    unfold complete_new_user_registration in ground arith
step-Follows d s (password_matches now call_id) h = unfold apply_password_match in ground arith
step-Follows d s (password_fails now) h = unfold apply_password_mismatch in ground arith
step-Follows d s (password_changes hash salt kind now) h =
    unfold apply_password_change in ground arith
step-Follows d s (enters_menu now) h = unfold enter_menu in ground arith
step-Follows d s (rejoins now) h = unfold auto_rejoin_conference in ground arith
step-Follows d s (joins target requested now) h = unfold explicit_join_conference in ground arith
step-Follows d s (starts_scan now) h = unfold start_conference_scan in ground arith
step-Follows d s (steps_scan now) h = unfold step_conference_scan in ground arith
step-Follows d s (visits conference msgbase now) h = unfold attach_visit in ground arith
step-Follows d s ticks h = unfold tick_minute in ground arith
step-Follows d s (accrues now) h = unfold accrue_time in ground arith
step-Follows d s (idles treat_as_logoff) h = unfold apply_idle_timeout in ground arith
step-Follows d s loses_carrier h = unfold apply_carrier_loss in ground arith
step-Follows d s requests_logoff h = unfold user_requests_logoff in ground arith
step-Follows d s time_expires h = unfold expire_time_budget in ground arith
step-Follows d s (finalises now) h = unfold finalise_logoff in ground arith
step-Follows d s rebaselines h = unfold rebaseline_persisted in ground arith

abbrev pub rank : SessionState → ℕ
rank SessionState.connecting = 0
rank SessionState.identifying = 1
rank SessionState.authenticating = 2
rank SessionState.new_user_registering = 2
rank SessionState.onboarded = 3
rank SessionState.menu = 4
rank SessionState.logging_off = 5
rank SessionState.ended = 6

-- The table has no way down.
abbrev pub Climbs : SessionState → SessionState → Type 0
Climbs a b = (a ≡ b) ⊎ (rank a < rank b)

Climbs-Follows : (a b : SessionState) → Follows a b → Climbs a b
unfolding is_session_transition_allowed
Climbs-Follows a b h = ground arith

pub step-Climbs :
    (d : Deployment) (s : Session) (e : Event) {t : Session}
    → step d s e ≡ some t
    → Climbs (state s) (state t)
step-Climbs d s e {t} h = Climbs-Follows (state s) (state t) (step-Follows d s e h)

Climbs-trans : (a b c : SessionState) → Climbs a b → Climbs b c → Climbs a c
Climbs-trans a b c h k = ground arith

pub run-Climbs :
    (d : Deployment) (s : Session) (es : List Event) {t : Session}
    → run d s es ≡ some t
    → Climbs (state s) (state t)
unfolding run
run-Climbs d s [] h = ground arith
run-Climbs d s (e ∷ es) {t} h = elim (Option-cases (step d s e)) [
  | inl panics ↦ ground (arith, panics)
  | inr (u, stepped) ↦
      Climbs-trans (state s) (state u) (state t) (step-Climbs d s e stepped)
        (run-Climbs d u es {t = t} (ground (arith, stepped)))
]

-- A session that has left a state never comes back to it: if two stretches of its history begin and
-- end in one state, it is in that state between them too.
pub run_never_returns :
    (d : Deployment) (s t u : Session) (before after : List Event)
    → run d s before ≡ some t
    → run d t after ≡ some u
    → state u ≡ state s
    → state t ≡ state s
run_never_returns d s t u before after h k back =
    ground (arith, run-Climbs d s before {t = t} h, run-Climbs d t after {t = u} k)
