-- ===== src/Session/Trace/Ending.antt =====
-- How every history of a session of rust/src/domain/session comes to its end.
use nextexpress.Prelude.{◌≤◌, ◌≡◌, inl, inr, some, List, [], ◌∷◌, ◌++◌, arith, Every, Option-cases}
use nextexpress.Time.{SystemTime}
use nextexpress.Conference.{IsConference}
use nextexpress.Session.{Session, state}
use nextexpress.Session.State.{SessionState}
use nextexpress.Session.Lifecycle.{apply_carrier_loss, finalise_logoff}
use nextexpress.Session.Trace.{Deployment, Event, loses_carrier, finalises, step, run}
use nextexpress.Session.Trace.Follows.{rank, step-Climbs, run-Climbs}
use nextexpress.Session.Trace.Total.{run_total}

step-loses_carrier :
    (d : Deployment) (s : Session) {t : Session}
    → step d s loses_carrier ≡ some t
    → 5 ≤ rank (state t)
unfolding step apply_carrier_loss
step-loses_carrier d s h = ground arith

step-finalises :
    (d : Deployment) (s : Session) (now : SystemTime) {t : Session}
    → step d s (finalises now) ≡ some t
    → 5 ≤ rank (state s)
    → state t ≡ SessionState.ended
unfolding step finalise_logoff
step-finalises d s now h past = ground arith

stays_ended :
    (d : Deployment) (s : Session) (es : List Event) {t : Session}
    → run d s es ≡ some t
    → state s ≡ SessionState.ended
    → state t ≡ SessionState.ended
stays_ended d s es {t} h ended = ground (arith, run-Climbs d s es {t = t} h)

-- A session that logs off has ended once it is finalised, whatever happens before and after that.
finalised_ends :
    (d : Deployment) (s : Session) (now : SystemTime) (between after : List Event) {t : Session}
    → run d s (between ++ finalises now ∷ after) ≡ some t
    → 5 ≤ rank (state s)
    → state t ≡ SessionState.ended
unfolding run
finalised_ends d s now [] after {t} h past = elim (Option-cases (step d s (finalises now))) [
  | inl panics ↦ ground (arith, panics)
  | inr (u, stepped) ↦
      stays_ended d u after {t = t} (ground (arith, stepped))
        (step-finalises d s now {t = u} stepped past)
]
finalised_ends d s now (e ∷ es) after {t} h past = elim (Option-cases (step d s e)) [
  | inl panics ↦ ground (arith, panics)
  | inr (u, stepped) ↦
      finalised_ends d u now es after {t = t} (ground (arith, stepped))
        (ground (arith, step-Climbs d s e {t = u} stepped))
]

dropped_ends :
    (d : Deployment) (s : Session) (now : SystemTime) (before between after : List Event)
    {t : Session}
    → run d s (before ++ loses_carrier ∷ between ++ finalises now ∷ after) ≡ some t
    → state t ≡ SessionState.ended
unfolding run
dropped_ends d s now [] between after {t} h = elim (Option-cases (step d s loses_carrier)) [
  | inl panics ↦ ground (arith, panics)
  | inr (u, stepped) ↦
      finalised_ends d u now between after {t = t} (ground (arith, stepped))
        (step-loses_carrier d s {t = u} stepped)
]
dropped_ends d s now (e ∷ es) between after {t} h = elim (Option-cases (step d s e)) [
  | inl panics ↦ ground (arith, panics)
  | inr (u, stepped) ↦ dropped_ends d u now es between after {t = t} (ground (arith, stepped))
]

-- With a catalogue of proper conferences, every history in which the line drops and the logoff is
-- finalised at some later event runs through and leaves the session ended, whatever its state at
-- the start, and whatever happens before, between and after the two.
pub run_ends :
    (d : Deployment) (s : Session) (now : SystemTime) (before between after : List Event)
    → Every IsConference d.conferences
    → (t : Session) × (run d s (before ++ loses_carrier ∷ between ++ finalises now ∷ after)
        ≡ some t)
      × (state t ≡ SessionState.ended)
run_ends d s now before between after v =
    let (t, ran) = run_total d s (before ++ loses_carrier ∷ between ++ finalises now ∷ after) v in
    (t, ran, dropped_ends d s now before between after {t = t} ran)
