-- ===== src/Session/Trace/Invariant/Joins.antt =====
-- The promises of a session, and the joins and scans of rust/src/domain/session/conferencing.rs.
use nextexpress.Prelude.{
  subst, ℕ, ◌≡◌, Bool, true, false, Option, none, some, List, arith, ◌>>=◌, if◌then◌else◌,
}
use nextexpress.Time.{SystemTime}
use nextexpress.User.{User}
use nextexpress.Session.{Session, state, user, move_to_logging_off}
use nextexpress.Session.State.{LogoffReason}
use nextexpress.Conference.{Conference, primary_msgbase}
use nextexpress.Joining.{
  JoinResolution, ExplicitJoinResolution, resolve_auto_rejoin, resolve_explicit_join,
  next_accessible_conference_after,
}
use nextexpress.Conference.Membership.{first_accessible_conference}
use nextexpress.Session.Activity.{set_scan}
use nextexpress.Session.Lifecycle.{is_onboarded_or_menu}
use nextexpress.Session.Conferencing.{
  auto_rejoin_conference, explicit_join_conference, start_conference_scan, step_conference_scan,
  rejoin_by, rejoin_as, join_by, join_as, start_at, start_as, step_at, step_as, step_from,
  scan_position, scan_to, scan_from,
}
use nextexpress.Session.Trace.{Deployment, left}
use nextexpress.Session.Trace.Invariant.{IsSession, join_at-IsSession, scan-IsSession}

-- Whatever the operation leaves has the property.
unfoldable pub Leaves {ℓ} : {R : Type ℓ} → (Session → Type 0) → Option (Session × R) → Type 0
Leaves p none = Unit
Leaves p (some (t, r)) = p t

pub some_eq : {s t : Session} → some s ≡ some t → s ≡ t
some_eq h = cc

pub left-Leaves {ℓ} :
    (p : Session → Type 0) {R : Type ℓ} (o : Option (Session × R)) {t : Session}
    → left o ≡ some t
    → Leaves p o
    → p t
unfolding Leaves
left-Leaves p none h v = ground arith
left-Leaves p (some (u, r)) h v = subst p (some_eq h) v

if-Leaves {ℓ} :
    (p : Session → Type 0) {R : Type ℓ} (b : Bool) (x y : Option (Session × R))
    → Leaves p x
    → Leaves p y
    → Leaves p (if b then x else y)
unfolding Leaves
if-Leaves p false x y vx vy = vy
if-Leaves p true x y vx vy = vx

bind-Leaves {ℓ ℓ'} :
    (p : Session → Type 0) {A : Type ℓ} {R : Type ℓ'} (o : Option A) (f : A → Option (Session × R))
    → ((a : A) → Leaves p (f a))
    → Leaves p (o >>= f)
unfolding Leaves
bind-Leaves p none f v = tt
bind-Leaves p (some a) f v = v a

scan_to-Leaves :
    {d : Deployment} (conf : Conference) (now : SystemTime) (s : Session)
    → IsSession d s
    → Leaves (IsSession d) (scan_to conf now s)
unfolding Leaves scan_to set_scan
scan_to-Leaves conf now s v = bind-Leaves (IsSession _) (primary_msgbase conf) _ (λ base.
    let scan = some (scan_from conf.number now) in
    join_at-IsSession conf base now (record s { activity = record s.activity { scan = scan } })
      (scan-IsSession scan s v))

no_access-IsSession :
    {d : Deployment} (s : Session)
    → IsSession d s
    → IsSession d (move_to_logging_off (some LogoffReason.no_conference_access) s)
unfolding move_to_logging_off
no_access-IsSession s v = ground arith

rejoin_by-IsSession :
    {d : Deployment} (r : JoinResolution) (now : SystemTime) (s : Session)
    → IsSession d s
    → IsSession d (rejoin_by r now s).0
rejoin_by-IsSession JoinResolution.no_access now s v = no_access-IsSession s v
rejoin_by-IsSession (JoinResolution.resolved conf base) now s v =
    join_at-IsSession conf base now s v

rejoin_as-Leaves :
    {d : Deployment} (o : Option User) (conferences : List Conference) (now : SystemTime)
    (s : Session)
    → IsSession d s
    → Leaves (IsSession d) (rejoin_as o conferences now s)
unfolding Leaves
rejoin_as-Leaves none conferences now s v = v
rejoin_as-Leaves (some u) conferences now s v =
    bind-Leaves (IsSession _) (resolve_auto_rejoin u conferences) _
      (λ r. rejoin_by-IsSession r now s v)

join_by-IsSession :
    {d : Deployment} (r : ExplicitJoinResolution) (now : SystemTime) (s : Session)
    → IsSession d s
    → IsSession d (join_by r now s).0
join_by-IsSession ExplicitJoinResolution.denied now s v = v
join_by-IsSession (ExplicitJoinResolution.granted conf base) now s v =
    join_at-IsSession conf base now s v

join_as-Leaves :
    {d : Deployment} (o : Option User) (target : ℕ) (requested : Option ℕ)
    (conferences : List Conference) (now : SystemTime) (s : Session)
    → IsSession d s
    → Leaves (IsSession d) (join_as o target requested conferences now s)
unfolding Leaves
join_as-Leaves none target requested conferences now s v = v
join_as-Leaves (some u) target requested conferences now s v =
    bind-Leaves (IsSession _) (resolve_explicit_join target requested u conferences) _
      (λ r. join_by-IsSession r now s v)

start_as-Leaves :
    {d : Deployment} (o : Option User) (conferences : List Conference) (now : SystemTime)
    (s : Session)
    → IsSession d s
    → Leaves (IsSession d) (start_as o conferences now s)
unfolding Leaves
start_as-Leaves none conferences now s v = v
start_as-Leaves {d = d} (some u) conferences now s v =
    start_at-Leaves (first_accessible_conference u.conferences.memberships conferences)
  where
    start_at-Leaves : (o : Option Conference) → Leaves (IsSession d) (start_at o now s)
    start_at-Leaves none = no_access-IsSession s v
    start_at-Leaves (some conf) = scan_to-Leaves conf now s v

step_as-Leaves :
    {d : Deployment} (o : Option User) (current : ℕ) (conferences : List Conference)
    (now : SystemTime) (s : Session)
    → IsSession d s
    → Leaves (IsSession d) (step_as o current conferences now s)
unfolding Leaves set_scan
step_as-Leaves none current conferences now s v = v
step_as-Leaves {d = d} (some u) current conferences now s v =
    step_at-Leaves (next_accessible_conference_after u conferences current)
  where
    step_at-Leaves : (o : Option Conference) → Leaves (IsSession d) (step_at u o now s)
    step_at-Leaves none = scan-IsSession none s v
    step_at-Leaves (some conf) = scan_to-Leaves conf now s v

step_from-Leaves :
    {d : Deployment} (o : Option ℕ) (conferences : List Conference) (now : SystemTime) (s : Session)
    → IsSession d s
    → Leaves (IsSession d) (step_from o conferences now s)
unfolding Leaves
step_from-Leaves none conferences now s v = v
step_from-Leaves (some current) conferences now s v =
    step_as-Leaves (user s) current conferences now s v

pub auto_rejoin_conference-Leaves :
    {d : Deployment} (conferences : List Conference) (now : SystemTime) (s : Session)
    → IsSession d s
    → Leaves (IsSession d) (auto_rejoin_conference conferences now s)
unfolding Leaves auto_rejoin_conference
auto_rejoin_conference-Leaves conferences now s v =
    if-Leaves (IsSession _) (is_onboarded_or_menu (state s)) _ _
      (rejoin_as-Leaves (user s) conferences now s v) v

pub explicit_join_conference-Leaves :
    {d : Deployment} (target : ℕ) (requested : Option ℕ) (conferences : List Conference)
    (now : SystemTime) (s : Session)
    → IsSession d s
    → Leaves (IsSession d) (explicit_join_conference target requested conferences now s)
unfolding Leaves explicit_join_conference
explicit_join_conference-Leaves target requested conferences now s v =
    if-Leaves (IsSession _) (is_onboarded_or_menu (state s)) _ _
      (join_as-Leaves (user s) target requested conferences now s v) v

pub start_conference_scan-Leaves :
    {d : Deployment} (conferences : List Conference) (now : SystemTime) (s : Session)
    → IsSession d s
    → Leaves (IsSession d) (start_conference_scan conferences now s)
unfolding Leaves start_conference_scan
start_conference_scan-Leaves conferences now s v =
    if-Leaves (IsSession _) (is_onboarded_or_menu (state s)) _ _
      (start_as-Leaves (user s) conferences now s v) v

pub step_conference_scan-Leaves :
    {d : Deployment} (conferences : List Conference) (now : SystemTime) (s : Session)
    → IsSession d s
    → Leaves (IsSession d) (step_conference_scan conferences now s)
unfolding Leaves step_conference_scan
step_conference_scan-Leaves conferences now s v =
    step_from-Leaves (scan_position s.activity.scan) conferences now s v
