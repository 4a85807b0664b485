-- ===== src/Session/Conferencing.antt =====
-- rust/src/domain/session/conferencing.rs: joins and the conference scan. `none` is the panic of
-- `primary_msgbase` on a conference without message bases.
use nextexpress.Prelude.{
  ℕ, Bool, not, ◌&&◌, Option, none, some, List, Result, ok, err, ◌>>=◌, if◌then◌else◌,
}
use nextexpress.Time.{SystemTime}
use nextexpress.Conference.{Conference, MessageBase, NameType, name_type_eq, primary_msgbase}
use nextexpress.Conference.Membership.{first_accessible_conference}
use nextexpress.User.{User}
use nextexpress.User.Access.{record_join}
use nextexpress.Joining.{
  JoinResolution, ExplicitJoinResolution, resolve_auto_rejoin, resolve_explicit_join,
  next_accessible_conference_after,
}
use nextexpress.Session.{Session, SessionPhase, state, user, move_to_logging_off}
use nextexpress.Session.State.{LogoffReason, AutoRejoinError}
use nextexpress.Session.Call.{AuthenticatedCall, CallSalvage}
use nextexpress.Session.Activity.{ConferenceScan, attach, set_scan, is_scanning}
use nextexpress.Session.Lifecycle.{is_onboarded_or_menu}

-- Where a join has attached the session.
pub record Joined : Type 0 where
  pub conference_number : ℕ
  pub msgbase_number : ℕ
  pub show_bulletin : Bool
  pub name_type_promoted_to : Option NameType

pub data AutoRejoinOutcome : Type 0 where
  joined : Joined → AutoRejoinOutcome
  no_access : AutoRejoinOutcome

pub data ExplicitJoinOutcome : Type 0 where
  joined : Joined → ExplicitJoinOutcome
  denied : ExplicitJoinOutcome

pub data ConferenceScanOutcome : Type 0 where
  stepped : ℕ → ℕ → Option NameType → ConferenceScanOutcome
  finished : Option ℕ → ConferenceScanOutcome
  no_access : ConferenceScanOutcome

abbrev pub with_call : (User → User) → AuthenticatedCall → AuthenticatedCall
with_call f call = record call { user = f call.user }

abbrev pub with_salvaged : (User → User) → CallSalvage → CallSalvage
with_salvaged f CallSalvage.unidentified = CallSalvage.unidentified
with_salvaged f (CallSalvage.identified u) = CallSalvage.identified (f u)
with_salvaged f (CallSalvage.authenticated call) = CallSalvage.authenticated (with_call f call)

-- A write through `SessionPhase::user_mut`.
abbrev pub with_user : (User → User) → SessionPhase → SessionPhase
with_user f (SessionPhase.authenticating attempt) =
    SessionPhase.authenticating (record attempt { user = f attempt.user })
with_user f (SessionPhase.onboarded call) = SessionPhase.onboarded (with_call f call)
with_user f (SessionPhase.menu call) = SessionPhase.menu (with_call f call)
with_user f (SessionPhase.logging_off call reason) =
    SessionPhase.logging_off (with_salvaged f call) reason
with_user f (SessionPhase.ended call reason at) =
    SessionPhase.ended (with_salvaged f call) reason at
with_user f phase = phase

abbrev joins : Conference → MessageBase → User → User
joins conf base u = record u { conferences = record_join conf base u.conferences }

-- The session, and the name type changed to, if it changed.
unfoldable pub promote_display_name_type : NameType → Session → Session × Option NameType
promote_display_name_type target s =
    if name_type_eq s.shared.display_name_type target
    then (s, none)
    else (record s { shared = record s.shared { display_name_type = target } }, some target)

unfoldable pub attach_visit : ℕ → ℕ → SystemTime → Session → Session
unfolding attach
attach_visit conference_number msgbase_number now s = record s {
  activity = attach conference_number msgbase_number now s.activity;
}

-- What every successful join does: `record_join` on the user, the name type, and the new visit.
unfoldable pub join_at : Conference → MessageBase → SystemTime → Session → Session
unfolding record_join promote_display_name_type attach
join_at conf base now s =
    let (promoted, changed) = promote_display_name_type conf.accepted_name_type s in
    record promoted {
      phase = with_user (joins conf base) promoted.phase;
      activity = attach conf.number base.number now promoted.activity;
    }

unfoldable pub joined_at : Conference → MessageBase → Session → Joined
unfolding is_scanning promote_display_name_type
joined_at conf base s = record {
  conference_number = conf.number;
  msgbase_number = base.number;
  show_bulletin = not s.shared.quick_logon && not (is_scanning s.activity);
  name_type_promoted_to = (promote_display_name_type conf.accepted_name_type s).1;
}

abbrev pub rejoin_by :
    JoinResolution → SystemTime → Session → Session × Result AutoRejoinError AutoRejoinOutcome
rejoin_by JoinResolution.no_access now s =
    (move_to_logging_off (some LogoffReason.no_conference_access) s, ok AutoRejoinOutcome.no_access)
rejoin_by (JoinResolution.resolved conf base) now s =
    (join_at conf base now s, ok (AutoRejoinOutcome.joined (joined_at conf base s)))

abbrev pub rejoin_as :
    Option User
    → List Conference
    → SystemTime
    → Session
    → Option (Session × Result AutoRejoinError AutoRejoinOutcome)
rejoin_as none conferences now s = some (s, err AutoRejoinError.user_missing)
rejoin_as (some u) conferences now s = do
  resolution ← resolve_auto_rejoin u conferences
  some (rejoin_by resolution now s)

unfoldable pub auto_rejoin_conference :
    List Conference
    → SystemTime
    → Session
    → Option (Session × Result AutoRejoinError AutoRejoinOutcome)
unfolding move_to_logging_off join_at joined_at
auto_rejoin_conference conferences now s =
    if is_onboarded_or_menu (state s)
    then rejoin_as (user s) conferences now s
    else some (s, err (AutoRejoinError.wrong_state (state s)))

abbrev pub join_by :
    ExplicitJoinResolution
    → SystemTime
    → Session
    → Session × Result AutoRejoinError ExplicitJoinOutcome
join_by ExplicitJoinResolution.denied now s = (s, ok ExplicitJoinOutcome.denied)
join_by (ExplicitJoinResolution.granted conf base) now s =
    (join_at conf base now s, ok (ExplicitJoinOutcome.joined (joined_at conf base s)))

abbrev pub join_as :
    Option User
    → ℕ
    → Option ℕ
    → List Conference
    → SystemTime
    → Session
    → Option (Session × Result AutoRejoinError ExplicitJoinOutcome)
join_as none target requested conferences now s = some (s, err AutoRejoinError.user_missing)
join_as (some u) target requested conferences now s = do
  resolution ← resolve_explicit_join target requested u conferences
  some (join_by resolution now s)

unfoldable pub explicit_join_conference :
    ℕ
    → Option ℕ
    → List Conference
    → SystemTime
    → Session
    → Option (Session × Result AutoRejoinError ExplicitJoinOutcome)
unfolding join_at joined_at
explicit_join_conference target requested conferences now s =
    if is_onboarded_or_menu (state s)
    then join_as (user s) target requested conferences now s
    else some (s, err (AutoRejoinError.wrong_state (state s)))

-- `ConferenceScan::new`.
abbrev pub scan_from : ℕ → SystemTime → ConferenceScan
scan_from n now = record { next_conference_number = some n; started_at = now }

-- The join of one scan step, with the scan left at that conference.
unfoldable pub scan_to :
    Conference
    → SystemTime
    → Session
    → Option (Session × Result AutoRejoinError ConferenceScanOutcome)
unfolding join_at set_scan
scan_to conf now s = do
  base ← primary_msgbase conf
  let scanning = record s { activity = set_scan (some (scan_from conf.number now)) s.activity }
  some (
    join_at conf base now scanning,
    ok (
        ConferenceScanOutcome.stepped conf.number base.number
          (promote_display_name_type conf.accepted_name_type s).1),
  )

abbrev pub start_at :
    Option Conference
    → SystemTime
    → Session
    → Option (Session × Result AutoRejoinError ConferenceScanOutcome)
start_at none now s = some (
  move_to_logging_off (some LogoffReason.no_conference_access) s,
  ok ConferenceScanOutcome.no_access,
)
start_at (some conf) now s = scan_to conf now s

abbrev pub start_as :
    Option User
    → List Conference
    → SystemTime
    → Session
    → Option (Session × Result AutoRejoinError ConferenceScanOutcome)
start_as none conferences now s = some (s, err AutoRejoinError.user_missing)
start_as (some u) conferences now s =
    start_at (first_accessible_conference u.conferences.memberships conferences) now s

unfoldable pub start_conference_scan :
    List Conference
    → SystemTime
    → Session
    → Option (Session × Result AutoRejoinError ConferenceScanOutcome)
unfolding move_to_logging_off scan_to
start_conference_scan conferences now s =
    if is_onboarded_or_menu (state s)
    then start_as (user s) conferences now s
    else some (s, err (AutoRejoinError.wrong_state (state s)))

abbrev pub scan_position : Option ConferenceScan → Option ℕ
scan_position none = none
scan_position (some scan) = scan.next_conference_number

abbrev finish_scan : User → Session → Session × Result AutoRejoinError ConferenceScanOutcome
finish_scan u s = (
  record s { activity = set_scan none s.activity },
  ok (
      ConferenceScanOutcome.finished
        (elim u.conferences.last_joined [ none ↦ none | some r ↦ some r.conference_number ])),
)

abbrev pub step_at :
    User
    → Option Conference
    → SystemTime
    → Session
    → Option (Session × Result AutoRejoinError ConferenceScanOutcome)
step_at u none now s = some (finish_scan u s)
step_at u (some conf) now s = scan_to conf now s

abbrev pub step_as :
    Option User
    → ℕ
    → List Conference
    → SystemTime
    → Session
    → Option (Session × Result AutoRejoinError ConferenceScanOutcome)
step_as none current conferences now s = some (s, err AutoRejoinError.user_missing)
step_as (some u) current conferences now s =
    step_at u (next_accessible_conference_after u conferences current) now s

abbrev pub step_from :
    Option ℕ
    → List Conference
    → SystemTime
    → Session
    → Option (Session × Result AutoRejoinError ConferenceScanOutcome)
step_from none conferences now s = some (s, err (AutoRejoinError.wrong_state (state s)))
step_from (some current) conferences now s = step_as (user s) current conferences now s

unfoldable pub step_conference_scan :
    List Conference
    → SystemTime
    → Session
    → Option (Session × Result AutoRejoinError ConferenceScanOutcome)
unfolding scan_to set_scan
step_conference_scan conferences now s = step_from (scan_position s.activity.scan) conferences now s
