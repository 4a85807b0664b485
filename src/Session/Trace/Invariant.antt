-- ===== src/Session/Trace/Invariant.antt =====
-- The promises of a session in each phase of rust/src/domain/session, and of its visits.
pub mod Joins
pub mod Runs
use nextexpress.Prelude.{
  subst, ℕ, zero, suc, ◌+◌, ◌≤◌, ◌<◌, ◌≡◌, refl, ◌⊎◌, inl, inr, Bool, true, false, Option, none,
  some, List, [], ◌∷◌, ◌++◌, map, arith, ◌>>=◌, if◌then◌else◌, Option-cases, Result, ok, err,
  map_or,
}
use nextexpress.Time.{SystemTime}
use nextexpress.User.{User}
use nextexpress.Session.{
  accept_connection, is_active, Session, SessionPhase, state, user, rebaseline_persisted, new,
  move_to_logging_off,
}
use nextexpress.Session.State.{LogonChannel, already_active_session, AutoRejoinError, LogoffReason}
use nextexpress.Conference.{Conference, MessageBase, primary_msgbase}
use nextexpress.User.Access.{record_join}
use nextexpress.Joining.{
  JoinResolution, ExplicitJoinResolution, resolve_auto_rejoin, resolve_explicit_join,
  next_accessible_conference_after,
}
use nextexpress.Conference.Membership.{first_accessible_conference}
use nextexpress.Session.Activity.{
  ConferenceVisit, ConferenceScan, is_open, close, attach, new_visit, set_scan,
}
use nextexpress.Session.Identity.{prompt_for_name, record_identified_user, record_unknown_name}
use nextexpress.Session.Budget.{tick_minute, accrue_time}
use nextexpress.Session.Call.{AuthenticatedCall}
use nextexpress.Session.Onboarding.{OnboardedEntry, on_enter_onboarded, apply_password_change}
use nextexpress.Session.Lockout.{apply_password_match, apply_password_mismatch}
use nextexpress.Session.Lifecycle.{
  is_onboarded_or_menu, record_input, apply_carrier_loss, apply_idle_timeout, user_requests_logoff,
  expire_time_budget, finalise_logoff, enter_menu,
}
use nextexpress.Session.Registration.{
  record_new_user_request, apply_new_user_password_attempt, complete_new_user_registration,
}
use nextexpress.Session.Conferencing.{
  auto_rejoin_conference, explicit_join_conference, start_conference_scan, step_conference_scan,
  rejoin_by, rejoin_as, join_by, join_as, start_at, start_as, step_at, step_as, step_from,
  scan_position, attach_visit, join_at, scan_to, scan_from, promote_display_name_type,
  ConferenceScanOutcome,
}
use nextexpress.Session.Trace.{
  Deployment, Event, input, prompts, identified, unknown_name, requests_new, gate_attempt,
  registered, password_matches, password_fails, password_changes, enters_menu, rejoins, joins,
  starts_scan, steps_scan, visits, left, ticks, accrues, idles, loses_carrier, requests_logoff,
  time_expires, finalises, rebaselines, step, run,
}

abbrev pub is_some {ℓ} : {A : Type ℓ} → Option A → Bool
is_some none = false
is_some (some a) = true

abbrev Bounded : ℕ → ℕ → Type 0
Bounded count limit = (count ≡ 0) ⊎ (count < limit)

-- Not rejected by `RejectLockedOrInsufficientAccess`.
abbrev pub IsAdmitted : User → Type 0
IsAdmitted u = (2 ≤ u.account.access_level) × (u.account.account_locked ≡ false)

-- What each phase promises.
abbrev pub IsPhase : Deployment → SessionPhase → Type 0
IsPhase d SessionPhase.connecting = Unit
IsPhase d (SessionPhase.identifying retries) = retries < 5
IsPhase d (SessionPhase.authenticating attempt) =
    Bounded attempt.password_retry_count d.policy.max_password_failures
IsPhase d (SessionPhase.new_user_registering gate) = Bounded gate.attempts d.max_gate_attempts
IsPhase d (SessionPhase.onboarded call) = IsAdmitted call.user
IsPhase d (SessionPhase.menu call) = IsAdmitted call.user × (call.user.credentials.reset ≡ false)
IsPhase d (SessionPhase.logging_off call reason) = is_some reason ≡ true
IsPhase d (SessionPhase.ended call reason at) = (is_some reason ≡ true) × (is_some at ≡ true)

-- How many visits are open.
abbrev pub open_visits : List ConferenceVisit → ℕ
open_visits [] = 0
open_visits (v ∷ vs) = (elim (is_open v) [ true ↦ 1 | false ↦ 0 ]) + open_visits vs

pub record IsSession (d : Deployment) (s : Session) : Type 0 where
  pub phase_holds : IsPhase d s.phase
  pub has_baseline : is_some (user s) ≡ true → is_some s.persist_baseline ≡ true
  pub one_open : open_visits s.activity.visits ≤ 1

pub open_visits-attach :
    (now : SystemTime) (v : ConferenceVisit) (vs : List ConferenceVisit)
    → open_visits (map (close now) vs ++ v ∷ []) ≤ 1
unfolding close
open_visits-attach now v [] = ground arith
open_visits-attach now v (w ∷ vs) = ground (arith, open_visits-attach now v vs)

-- A rule cluster that lets the user through, or not, gives a session as promised.
pub enter-IsSession :
    (d : Deployment) (now : SystemTime) (call : AuthenticatedCall) (s t : Session)
    (entry : OnboardedEntry)
    → on_enter_onboarded d.policy now (record s { phase = SessionPhase.onboarded call })
      ≡ some (t, entry)
    → is_some s.persist_baseline ≡ true
    → open_visits s.activity.visits ≤ 1
    → IsSession d t
unfolding on_enter_onboarded
enter-IsSession d now call s t entry h b o = ground arith

-- A join keeps every promise, and opens the only open visit.
pub join_at-IsSession :
    {d : Deployment} (conf : Conference) (base : MessageBase) (now : SystemTime) (s : Session)
    → IsSession d s
    → IsSession d (join_at conf base now s)
unfolding join_at attach record_join promote_display_name_type
join_at-IsSession conf base now s v =
    ground (arith, open_visits-attach now (new_visit conf.number base.number now) s.activity.visits)

-- The scan's position is no part of a promise.
pub scan-IsSession :
    {d : Deployment} (scan : Option ConferenceScan) (s : Session)
    → IsSession d s
    → IsSession d (record s { activity = record s.activity { scan = scan } })
scan-IsSession scan s v = ground arith
