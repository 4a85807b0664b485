-- ===== src/Session/Visiting.antt =====
-- Where a join of rust/src/domain/session/conferencing.rs leaves the session and its user.
use nextexpress.Prelude.{
  ℕ, ◌≡◌, refl, true, Option, none, some, List, [], ◌∷◌, ◌++◌, map, ok, arith, find, Every, ap,
}
use nextexpress.Time.{SystemTime}
use nextexpress.Conference.{Conference, MessageBase, IsConference}
use nextexpress.User.{User}
use nextexpress.Session.{Session, state, user, logoff_reason, move_to_logging_off}
use nextexpress.Session.State.{SessionState, LogoffReason}
use nextexpress.Session.Activity.{ConferenceVisit, new_visit, close, is_open, attach, current_visit}
use nextexpress.Session.Conferencing.{
  join_at, joined_at, promote_display_name_type, rejoin_by, join_by, AutoRejoinOutcome,
  ExplicitJoinOutcome, auto_rejoin_conference, explicit_join_conference,
}
use nextexpress.Joining.{JoinResolution, ExplicitJoinResolution}
use nextexpress.Joining.Resolution.{
  IsRejoin, IsExplicit, resolve_auto_rejoin_lem, resolve_explicit_join_lem,
}
use nextexpress.Session.Lifecycle.{is_onboarded_or_menu}

find-close :
    (now : SystemTime) (vs : List ConferenceVisit) (v : ConferenceVisit)
    → is_open v ≡ true
    → find is_open (map (close now) vs ++ v ∷ []) ≡ some v
unfolding close
find-close now [] v h = ground arith
find-close now (w ∷ vs) v h = ground (arith, find-close now vs v h)

abbrev pub joined_user : Conference → MessageBase → Option User → Option User
joined_user conf base none = none
joined_user conf base (some u) = some (record u {
  conferences = record u.conferences {
    last_joined = some (record { conference_number = conf.number; msgbase_number = base.number });
  };
})

-- A session that has joined: its open visit is the new one, in the state it was in, with the
-- conference's name type, and its user remembers the message base.
pub record IsAt (conf : Conference) (base : MessageBase) (now : SystemTime) (s t : Session)
    : Type 0 where
  pub visit : current_visit t.activity ≡ some (new_visit conf.number base.number now)
  pub keeps_state : state t ≡ state s
  pub names : t.shared.display_name_type ≡ conf.accepted_name_type
  pub remembers : user t ≡ joined_user conf base (user s)
  pub keeps_scan : t.activity.scan ≡ s.activity.scan

join_at-IsAt :
    (conf : Conference) (base : MessageBase) (now : SystemTime) (s : Session)
    → IsAt conf base now s (join_at conf base now s)
unfolding join_at current_visit attach new_visit promote_display_name_type
join_at-IsAt conf base now s = record {
  visit =
      ground (arith, find-close now s.activity.visits (new_visit conf.number base.number now) refl);
  keeps_state = ground arith;
  names = ground arith;
  remembers = ground arith;
  keeps_scan = ground arith;
}

-- What a rejoin leaves, by its resolution: a session that logs off, or one that has joined.
abbrev pub IsRejoined : JoinResolution → SystemTime → Session → Session → AutoRejoinOutcome → Type 0
IsRejoined JoinResolution.no_access now s t out =
    (state t ≡ SessionState.logging_off)
    × (logoff_reason t ≡ some LogoffReason.no_conference_access)
    × (out ≡ AutoRejoinOutcome.no_access)
IsRejoined (JoinResolution.resolved conf base) now s t out =
    IsAt conf base now s t × (out ≡ AutoRejoinOutcome.joined (joined_at conf base s))

-- What a join by number leaves, by its resolution: the session as it was, or one that has joined.
abbrev pub IsJoined :
    ExplicitJoinResolution → SystemTime → Session → Session → ExplicitJoinOutcome → Type 0
IsJoined ExplicitJoinResolution.denied now s t out = (t ≡ s) × (out ≡ ExplicitJoinOutcome.denied)
IsJoined (ExplicitJoinResolution.granted conf base) now s t out =
    IsAt conf base now s t × (out ≡ ExplicitJoinOutcome.joined (joined_at conf base s))

rejoin_by-IsRejoined :
    (r : JoinResolution) (now : SystemTime) (s : Session)
    → (t : Session) × (out : AutoRejoinOutcome) × (rejoin_by r now s ≡ (t, ok out))
      × IsRejoined r now s t out
unfolding move_to_logging_off
rejoin_by-IsRejoined JoinResolution.no_access now s = (
  (rejoin_by JoinResolution.no_access now s).0,
  AutoRejoinOutcome.no_access,
  refl,
  (refl, refl, refl),
)
rejoin_by-IsRejoined (JoinResolution.resolved conf base) now s = (
  join_at conf base now s,
  AutoRejoinOutcome.joined (joined_at conf base s),
  refl,
  (join_at-IsAt conf base now s, refl),
)

join_by-IsJoined :
    (r : ExplicitJoinResolution) (now : SystemTime) (s : Session)
    → (t : Session) × (out : ExplicitJoinOutcome) × (join_by r now s ≡ (t, ok out))
      × IsJoined r now s t out
join_by-IsJoined ExplicitJoinResolution.denied now s =
    (s, ExplicitJoinOutcome.denied, refl, (refl, refl))
join_by-IsJoined (ExplicitJoinResolution.granted conf base) now s = (
  join_at conf base now s,
  ExplicitJoinOutcome.joined (joined_at conf base s),
  refl,
  (join_at-IsAt conf base now s, refl),
)

-- With a catalogue of proper conferences, an automatic rejoin of a session past the login succeeds:
-- a user who is a member of no conference is logged off for that reason, and any other user is put
-- in a conference of the catalogue, as a member, the last joined one where that is still possible,
-- by an open visit that the user remembers.
pub auto_rejoin_conference_lem :
    (conferences : List Conference) (now : SystemTime) (s : Session) (u : User)
    → Every IsConference conferences
    → is_onboarded_or_menu (state s) ≡ true
    → user s ≡ some u
    → (r : JoinResolution) × (t : Session) × (out : AutoRejoinOutcome) × (auto_rejoin_conference
          conferences now s
        ≡ some (t, ok out))
      × IsRejoin u conferences r
      × IsRejoined r now s t out
unfolding auto_rejoin_conference
auto_rejoin_conference_lem conferences now s u v past bound =
    let (r, e, resolution) = resolve_auto_rejoin_lem u conferences v in
    let (t, out, f, left) = rejoin_by-IsRejoined r now s in
    (r, t, out, rw past (rw bound (rw e (ap some f))), resolution, left)

-- With a catalogue of proper conferences, a join by number of a session past the login succeeds: it
-- denies and changes nothing if the user is a member of no conference of that number, and otherwise
-- puts the user in that conference, in the requested message base where the conference has it, by
-- an open visit that the user remembers.
pub explicit_join_conference_lem :
    (target : ℕ) (requested : Option ℕ) (conferences : List Conference) (now : SystemTime)
    (s : Session) (u : User)
    → Every IsConference conferences
    → is_onboarded_or_menu (state s) ≡ true
    → user s ≡ some u
    → (r : ExplicitJoinResolution) × (t : Session) × (out : ExplicitJoinOutcome)
      × (explicit_join_conference target requested conferences now s ≡ some (t, ok out))
      × IsExplicit target requested u conferences r
      × IsJoined r now s t out
unfolding explicit_join_conference
explicit_join_conference_lem target requested conferences now s u v past bound =
    let (r, e, resolution) = resolve_explicit_join_lem target requested u conferences v in
    let (t, out, f, left) = join_by-IsJoined r now s in
    (r, t, out, rw past (rw bound (rw e (ap some f))), resolution, left)
