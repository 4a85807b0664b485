-- ===== src/Session/Trace/Total.antt =====
-- About the `expect`s of rust/src/domain/session and of `primary_msgbase`.
use nextexpress.Prelude.{
  ℕ, ◌≡◌, refl, sym, subst, Bool, true, false, Option, none, some, List, [], ◌∷◌, arith, Every,
  Every-Memᴰ, ◌>>=◌, find-Memᴰ, if◌then◌else◌, Memᴰ,
}
use nextexpress.Conference.{Conference, IsConference, primary_msgbase, primary_msgbase_total}
use nextexpress.Conference.Membership.{has_membership, first_accessible_conference}
use nextexpress.User.{User}
use nextexpress.Time.{SystemTime}
use nextexpress.Joining.{
  resolve_auto_rejoin, resolve_explicit_join, next_accessible_conference_after,
}
use nextexpress.Joining.Resolution.{resolve_auto_rejoin_lem, resolve_explicit_join_lem}
use nextexpress.Joining.Walk.{next_accessible_conference_after_lem}
use nextexpress.Session.{Session, state, user}
use nextexpress.Session.Lockout.{apply_password_match}
use nextexpress.Session.Registration.{complete_new_user_registration}
use nextexpress.Session.Lifecycle.{is_onboarded_or_menu}
use nextexpress.Session.Conferencing.{
  auto_rejoin_conference, explicit_join_conference, start_conference_scan, step_conference_scan,
  rejoin_as, join_as, start_at, start_as, step_at, step_as, step_from, scan_position, scan_to,
}
use nextexpress.Session.Trace.{
  Deployment, Event, registered, password_matches, rejoins, joins, starts_scan, steps_scan, step,
  run, left,
}

-- A result, and no panic.
unfoldable Returns {ℓ} : {A : Type ℓ} → Option A → Type 0
Returns none = ⊥
Returns (some a) = Unit

returned {ℓ} : {A : Type ℓ} (o : Option A) → Returns o → (a : A) × (o ≡ some a)
unfolding Returns
returned none h = absurd h
returned (some a) h = (a, refl)

left-Returns {ℓ} : {R : Type ℓ} (o : Option (Session × R)) → Returns o → Returns (left o)
unfolding Returns
left-Returns none h = h
left-Returns (some (s, r)) h = tt

if-Returns {ℓ} :
    {A : Type ℓ} (b : Bool) (x y : Option A) → Returns x → Returns y → Returns (if b then x else y)
if-Returns false x y vx vy = vy
if-Returns true x y vx vy = vx

bind-Returns {ℓ ℓ'} :
    {A : Type ℓ} {B : Type ℓ'} (o : Option A) (f : A → B)
    → Returns o
    → Returns (do a ← o; some (f a))
unfolding Returns
bind-Returns none f h = h
bind-Returns (some a) f h = tt

some-Returns {ℓ} : {A : Type ℓ} {o : Option A} (a : A) → o ≡ some a → Returns o
unfolding Returns
some-Returns a e = subst Returns (sym e) tt

scan_to-Returns :
    (conf : Conference) (now : SystemTime) (s : Session)
    → IsConference conf
    → Returns (scan_to conf now s)
unfolding scan_to
scan_to-Returns conf now s v =
    let (base, e) = primary_msgbase_total conf v in
    bind-Returns (primary_msgbase conf) _ (some-Returns base e)

rejoin_as-Returns :
    (o : Option User) (conferences : List Conference) (now : SystemTime) (s : Session)
    → Every IsConference conferences
    → Returns (rejoin_as o conferences now s)
unfolding Returns
rejoin_as-Returns none conferences now s v = tt
rejoin_as-Returns (some u) conferences now s v =
    let (r, e, h) = resolve_auto_rejoin_lem u conferences v in
    bind-Returns (resolve_auto_rejoin u conferences) _ (some-Returns r e)

join_as-Returns :
    (o : Option User) (target : ℕ) (requested : Option ℕ) (conferences : List Conference)
    (now : SystemTime) (s : Session)
    → Every IsConference conferences
    → Returns (join_as o target requested conferences now s)
unfolding Returns
join_as-Returns none target requested conferences now s v = tt
join_as-Returns (some u) target requested conferences now s v =
    let (r, e, h) = resolve_explicit_join_lem target requested u conferences v in
    bind-Returns (resolve_explicit_join target requested u conferences) _ (some-Returns r e)

start_at-Returns :
    (o : Option Conference) (conferences : List Conference) (now : SystemTime) (s : Session)
    → ((conf : Conference) → o ≡ some conf → Memᴰ conf conferences)
    → Every IsConference conferences
    → Returns (start_at o now s)
unfolding Returns
start_at-Returns none conferences now s m v = tt
start_at-Returns (some conf) conferences now s m v =
    scan_to-Returns conf now s (Every-Memᴰ IsConference conferences v (m conf refl))

start_as-Returns :
    (o : Option User) (conferences : List Conference) (now : SystemTime) (s : Session)
    → Every IsConference conferences
    → Returns (start_as o conferences now s)
unfolding Returns first_accessible_conference
start_as-Returns none conferences now s v = tt
start_as-Returns (some u) conferences now s v =
    start_at-Returns (first_accessible_conference u.conferences.memberships conferences) conferences
      now s (λ conf e. find-Memᴰ (has_membership u.conferences.memberships) conferences e) v

step_at-Returns :
    (u : User) (o : Option Conference) (conferences : List Conference) (now : SystemTime)
    (s : Session)
    → ((conf : Conference) → o ≡ some conf → Memᴰ conf conferences)
    → Every IsConference conferences
    → Returns (step_at u o now s)
unfolding Returns
step_at-Returns u none conferences now s m v = tt
step_at-Returns u (some conf) conferences now s m v =
    scan_to-Returns conf now s (Every-Memᴰ IsConference conferences v (m conf refl))

step_as-Returns :
    (o : Option User) (current : ℕ) (conferences : List Conference) (now : SystemTime) (s : Session)
    → Every IsConference conferences
    → Returns (step_as o current conferences now s)
unfolding Returns
step_as-Returns none current conferences now s v = tt
step_as-Returns (some u) current conferences now s v =
    step_at-Returns u (next_accessible_conference_after u conferences current) conferences now s
      (λ conf e. (next_accessible_conference_after_lem u conferences current (some conf) e).2) v

step_from-Returns :
    (o : Option ℕ) (conferences : List Conference) (now : SystemTime) (s : Session)
    → Every IsConference conferences
    → Returns (step_from o conferences now s)
unfolding Returns
step_from-Returns none conferences now s v = tt
step_from-Returns (some current) conferences now s v =
    step_as-Returns (user s) current conferences now s v

match-Returns :
    (d : Deployment) (s : Session) (now call_id : ℕ)
    → Returns (apply_password_match d.policy now call_id s)
unfolding Returns apply_password_match
match-Returns d s now call_id = ground arith

registration-Returns :
    (d : Deployment) (s : Session) (u : User) (now call_id : ℕ)
    → Returns (complete_new_user_registration u d.policy now call_id s)
unfolding Returns complete_new_user_registration
registration-Returns d s u now call_id = ground arith

auto_rejoin_conference-Returns :
    (conferences : List Conference) (now : SystemTime) (s : Session)
    → Every IsConference conferences
    → Returns (auto_rejoin_conference conferences now s)
unfolding Returns auto_rejoin_conference
auto_rejoin_conference-Returns conferences now s v =
    if-Returns (is_onboarded_or_menu (state s)) _ _ (rejoin_as-Returns (user s) conferences now s v)
      tt

explicit_join_conference-Returns :
    (target : ℕ) (requested : Option ℕ) (conferences : List Conference) (now : SystemTime)
    (s : Session)
    → Every IsConference conferences
    → Returns (explicit_join_conference target requested conferences now s)
unfolding Returns explicit_join_conference
explicit_join_conference-Returns target requested conferences now s v =
    if-Returns (is_onboarded_or_menu (state s)) _ _
      (join_as-Returns (user s) target requested conferences now s v) tt

start_conference_scan-Returns :
    (conferences : List Conference) (now : SystemTime) (s : Session)
    → Every IsConference conferences
    → Returns (start_conference_scan conferences now s)
unfolding Returns start_conference_scan
start_conference_scan-Returns conferences now s v =
    if-Returns (is_onboarded_or_menu (state s)) _ _ (start_as-Returns (user s) conferences now s v)
      tt

step_conference_scan-Returns :
    (conferences : List Conference) (now : SystemTime) (s : Session)
    → Every IsConference conferences
    → Returns (step_conference_scan conferences now s)
unfolding Returns step_conference_scan
step_conference_scan-Returns conferences now s v =
    step_from-Returns (scan_position s.activity.scan) conferences now s v

step-Returns :
    (d : Deployment) (s : Session) (e : Event)
    → Every IsConference d.conferences
    → Returns (step d s e)
unfolding step Returns
step-Returns d s (registered u now call_id) v =
    left-Returns _ (registration-Returns d s u now call_id)
step-Returns d s (password_matches now call_id) v = left-Returns _ (match-Returns d s now call_id)
step-Returns d s (rejoins now) v =
    left-Returns _ (auto_rejoin_conference-Returns d.conferences now s v)
step-Returns d s (joins target requested now) v =
    left-Returns _ (explicit_join_conference-Returns target requested d.conferences now s v)
step-Returns d s (starts_scan now) v =
    left-Returns _ (start_conference_scan-Returns d.conferences now s v)
step-Returns d s (steps_scan now) v =
    left-Returns _ (step_conference_scan-Returns d.conferences now s v)
step-Returns d s _ v = tt

-- With a catalogue of proper conferences no history of a session panics: every sequence of events,
-- in whatever state each one arrives, ends in a session.
pub run_total :
    (d : Deployment) (s : Session) (es : List Event)
    → Every IsConference d.conferences
    → (t : Session) × (run d s es ≡ some t)
unfolding run
run_total d s [] v = (s, refl)
run_total d s (e ∷ es) v =
    let (t, stepped) = returned (step d s e) (step-Returns d s e v) in
    let (u, ran) = run_total d t es v in (u, ground (arith, stepped, ran))
