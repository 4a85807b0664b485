-- ===== src/Examples/Sessions.antt =====
-- The theorems on sessions and joins, at small histories.
use nextexpress.Prelude.{Every, ℕ, ◌≡◌, refl, none, some, [], ◌∷◌, ◌++◌, ok, codes, arith}
use nextexpress.Time.{from_mins, from_secs}
use nextexpress.Joining.{JoinResolution, ExplicitJoinResolution, next_accessible_conference_after}
use nextexpress.Joining.Resolution.{IsRejoin, IsExplicit}
use nextexpress.Joining.Walk.{
  IsSkipped, next_accessible_conference_after-IsSkipped, IsNext,
  next_accessible_conference_after_lem,
}
use nextexpress.Session.{Session, SessionPhase, state, accept_connection}
use nextexpress.Session.State.{LogonChannel, SessionState}
use nextexpress.Session.Call.{AuthenticatedCall, AuthenticatingAttempt, accrue_elapsed}
use nextexpress.Session.Clock.{
  IsAccrued, accrue_twice, accrue_elapsed_lem, accrue_elapsed-accrue_elapsed,
}
use nextexpress.Session.Conferencing.{
  AutoRejoinOutcome, ExplicitJoinOutcome, auto_rejoin_conference, explicit_join_conference,
}
use nextexpress.Session.Identity.{prompt_for_name, record_identified_user}
use nextexpress.Session.Lockout.{apply_password_mismatch}
use nextexpress.Session.Leaving.{IsHungUp, hang_up, hang_up-IsHungUp}
use nextexpress.Session.Tries.{IsAsking, IsLockedOut, fail_times, fail_times_lem}
use nextexpress.Session.Visiting.{
  IsRejoined, IsJoined, auto_rejoin_conference_lem, explicit_join_conference_lem,
}
use nextexpress.Session.Trace.{
  prompts, identified, password_fails, rejoins, ticks, loses_carrier, finalises, step, run,
}
use nextexpress.Session.Trace.Ending.{run_ends}
use nextexpress.Session.Trace.Follows.{run_never_returns}
use nextexpress.Session.Trace.Invariant.{IsSession}
use nextexpress.Session.Trace.Invariant.Runs.{accept_connection-IsSession}
use nextexpress.Session.Trace.Total.{run_total}
use nextexpress.User.Persisted.{to_persisted}
use nextexpress.Examples.Fixtures.{
  alice, conference_of, catalogue, catalogue-IsConference, strict, board, session_in,
}

abbrev asking : ℕ → AuthenticatingAttempt
asking failures = record {
  typed_name = codes "alice";
  user = record alice { account = record alice.account { invalid_attempts = failures } };
  password_retry_count = failures;
}

abbrev alice_call : AuthenticatedCall
alice_call = record {
  call_id = 1;
  user = alice;
  authenticated_at = 100;
  time_remaining = from_mins 30;
  last_tick_at = from_secs 100;
}

abbrev opened : Session
opened = session_in SessionPhase.connecting

abbrev prompted : Session
prompted = session_in (SessionPhase.identifying 0)

abbrev asked : Session
asked = record (session_in (SessionPhase.authenticating (asking 0))) {
  persist_baseline = some (to_persisted alice);
}

abbrev asked_again : Session
asked_again = record asked { phase = SessionPhase.authenticating (asking 1) }

abbrev at_menu : Session
at_menu = session_in (SessionPhase.menu alice_call)

opened_new : accept_connection 1 LogonChannel.remote 9600 10 none ≡ ok opened
unfolding accept_connection
opened_new = refl

ran :
    run board opened (prompts ∷ identified (codes "alice") alice ∷ password_fails 20 ∷ [])
    ≡ some asked_again
unfolding run step prompt_for_name record_identified_user apply_password_mismatch
ran = refl

ran_to_asked : run board opened (prompts ∷ identified (codes "alice") alice ∷ []) ≡ some asked
unfolding run step prompt_for_name record_identified_user
ran_to_asked = refl

ran_on : run board asked (password_fails 20 ∷ []) ≡ some asked_again
unfolding run step apply_password_mismatch
ran_on = refl

accept_connection-IsSession_example : IsSession board asked_again
accept_connection-IsSession_example =
    accept_connection-IsSession board 1 LogonChannel.remote 9600 10 none opened asked_again
      (prompts ∷ identified (codes "alice") alice ∷ password_fails 20 ∷ []) opened_new ran

run_ends_example :
    (t : Session) × (run board at_menu
        ((rejoins 30 ∷ []) ++ loses_carrier ∷ (password_fails 40 ∷ []) ++ finalises 50 ∷ ticks ∷ [])
      ≡ some t)
    × (state t ≡ SessionState.ended)
run_ends_example =
    run_ends board at_menu 50 (rejoins 30 ∷ []) (password_fails 40 ∷ []) (ticks ∷ [])
      catalogue-IsConference

run_total_example :
    (t : Session) × (run board at_menu (rejoins 30 ∷ password_fails 40 ∷ []) ≡ some t)
run_total_example =
    run_total board at_menu (rejoins 30 ∷ password_fails 40 ∷ []) catalogue-IsConference

stays : run board asked_again [] ≡ some asked_again
unfolding run
stays = refl

run_never_returns_example : state asked_again ≡ state asked
run_never_returns_example =
    run_never_returns board asked asked_again asked_again (password_fails 20 ∷ []) [] ran_on stays
      refl

fail_times_lem_example :
    IsAsking 2 2 (fail_times 2 strict 20 asked) × IsLockedOut (fail_times 3 strict 20 asked)
fail_times_lem_example =
    fail_times_lem 2 strict 20 asked {invalid = 0} {retries = 0}
      (record { asked = asking 0; is_asked = refl; on_record = refl; in_session = refl })
      (omega arith) refl (omega arith)

auto_rejoin_conference_lem_example :
    (r : JoinResolution) × (t : Session) × (out : AutoRejoinOutcome) × (auto_rejoin_conference
        catalogue 30 at_menu
      ≡ some (t, ok out))
    × IsRejoin alice catalogue r
    × IsRejoined r 30 at_menu t out
auto_rejoin_conference_lem_example =
    auto_rejoin_conference_lem catalogue 30 at_menu alice catalogue-IsConference refl refl

explicit_join_conference_lem_example :
    (r : ExplicitJoinResolution) × (t : Session) × (out : ExplicitJoinOutcome)
    × (explicit_join_conference 2 (some 1) catalogue 30 at_menu ≡ some (t, ok out))
    × IsExplicit 2 (some 1) alice catalogue r
    × IsJoined r 30 at_menu t out
explicit_join_conference_lem_example =
    explicit_join_conference_lem 2 (some 1) catalogue 30 at_menu alice catalogue-IsConference refl
      refl

hang_up-IsHungUp_example : IsHungUp 50 at_menu (hang_up 50 at_menu)
hang_up-IsHungUp_example = hang_up-IsHungUp 50 at_menu refl

accrue_elapsed_lem_example :
    IsAccrued
      (from_secs 230)
      alice_call
      (accrue_elapsed (from_secs 230) alice_call).0
      (accrue_elapsed (from_secs 230) alice_call).1
accrue_elapsed_lem_example = accrue_elapsed_lem (from_secs 230) alice_call (omega arith)

accrue_elapsed-accrue_elapsed_example :
    accrue_twice (from_secs 190) (from_secs 230) alice_call
    ≡ accrue_elapsed (from_secs 230) alice_call
accrue_elapsed-accrue_elapsed_example =
    accrue_elapsed-accrue_elapsed (from_secs 190) (from_secs 230) alice_call (omega arith)
      (omega arith)

found_next : next_accessible_conference_after alice catalogue 1 ≡ some (conference_of 2)
unfolding next_accessible_conference_after
found_next = refl

next_accessible_conference_after_lem_example : IsNext alice catalogue 1 (some (conference_of 2))
next_accessible_conference_after_lem_example =
    next_accessible_conference_after_lem alice catalogue 1 (some (conference_of 2)) found_next

found_from_zero : next_accessible_conference_after alice catalogue 0 ≡ some (conference_of 2)
unfolding next_accessible_conference_after
found_from_zero = refl

next_accessible_conference_after-IsSkipped_example : Every (IsSkipped alice 0 2) catalogue
next_accessible_conference_after-IsSkipped_example =
    next_accessible_conference_after-IsSkipped alice catalogue 0 (conference_of 2)
      ((omega arith, tt), (tt, tt)) found_from_zero
