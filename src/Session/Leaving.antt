-- ===== src/Session/Leaving.antt =====
-- A dropped line: carrier loss and the final logoff of rust/src/domain/session/lifecycle.rs.
use nextexpress.Prelude.{◌≡◌, true, Option, none, some, arith}
use nextexpress.Time.{SystemTime}
use nextexpress.User.{User}
use nextexpress.Session.{Session, state, user, logoff_reason, phase_logoff_at, phase_call, call_id}
use nextexpress.Session.State.{SessionState, LogoffReason}
use nextexpress.Session.Call.{AuthenticatedCall}
use nextexpress.Session.Lifecycle.{apply_carrier_loss, finalise_logoff, may_lose_carrier}

-- The loss of the carrier, and the logoff that follows it.
abbrev pub hang_up : SystemTime → Session → Session
hang_up now s = (finalise_logoff now (apply_carrier_loss s).0).0

abbrev stamped : SystemTime → Option User → Option User
stamped now none = none
stamped now (some u) = some (record u { usage = record u.usage { last_call = some now } })

abbrev stamped_call : SystemTime → Option AuthenticatedCall → Option AuthenticatedCall
stamped_call now none = none
stamped_call now (some call) = some (record call {
  user = record call.user { usage = record call.user.usage { last_call = some now } };
})

-- A session that ended at `now`, and what it keeps of the one before.
pub record IsHungUp (now : SystemTime) (s t : Session) : Type 0 where
  pub has_ended : state t ≡ SessionState.ended
  pub for_carrier : logoff_reason t ≡ some LogoffReason.carrier_loss
  pub at_instant : phase_logoff_at t.phase ≡ some now
  pub keeps_call : call_id t ≡ call_id s
  pub stamps_user : user t ≡ stamped now (user s)
  pub stamps_call : phase_call t.phase ≡ stamped_call now (phase_call s.phase)
  pub keeps_connection : t.shared ≡ s.shared
  pub keeps_flags : t.flagged_files ≡ s.flagged_files
  pub keeps_visits : t.activity ≡ s.activity
  pub keeps_baseline : t.persist_baseline ≡ s.persist_baseline

-- A session that has neither logged off nor ended is, after its line drops and the logoff is
-- finalised, ended at that instant for the loss of the carrier. The user and the authenticated call
-- that it had keep every field but the time of the user's last call, which is that instant; the data
-- of the connection, the flagged files, the visits and the saved snapshot are as before.
pub hang_up-IsHungUp :
    (now : SystemTime) (s : Session)
    → may_lose_carrier (state s) ≡ true
    → IsHungUp now s (hang_up now s)
unfolding apply_carrier_loss finalise_logoff
hang_up-IsHungUp now s h = record {
  has_ended = ground arith;
  for_carrier = ground arith;
  at_instant = ground arith;
  keeps_call = ground arith;
  stamps_user = ground arith;
  stamps_call = ground arith;
  keeps_connection = ground arith;
  keeps_flags = ground arith;
  keeps_visits = ground arith;
  keeps_baseline = ground arith;
}
