-- ===== src/Session/Identity.antt =====
-- rust/src/domain/session/identity.rs: the name prompt. Every `&mut self` method gives back the
-- session beside its result; a refused one gives it back as it was.
use nextexpress.Prelude.{ℕ, ◌+◌, ◌%◌, ◌^◌, some, Result, ok, err, leb, if◌then◌else◌}
use nextexpress.Text.{Text}
use nextexpress.Time.{SystemTime}
use nextexpress.User.{User}
use nextexpress.User.Persisted.{to_persisted}
use nextexpress.Session.{Session, SessionPhase, state}
use nextexpress.Session.State.{SessionState, SessionTransitionError, StateError, LogoffReason}
use nextexpress.Session.Call.{CallSalvage}

pub data NameTypedOutcome : Type 0 where
  authenticated not_found session_ended : NameTypedOutcome

abbrev pub max_name_retries : ℕ
max_name_retries = 5

abbrev prompt_in : SessionPhase → Session → Session × Result SessionTransitionError (Unit {0})
prompt_in SessionPhase.connecting s = (record s { phase = SessionPhase.identifying 0 }, ok tt)
prompt_in _ s = (s, err (record { from_state = state s; to_state = SessionState.identifying }))

unfoldable pub prompt_for_name : Session → Session × Result SessionTransitionError (Unit {0})
prompt_for_name s = prompt_in s.phase s

abbrev identify_in :
    SessionPhase → Text → User → Session → Session × Result StateError NameTypedOutcome
identify_in (SessionPhase.identifying n) typed user s = (
  record s {
    persist_baseline = some (to_persisted user);
    phase =
        SessionPhase.authenticating
          (record { typed_name = typed; user = user; password_retry_count = 0 });
  },
  ok NameTypedOutcome.authenticated,
)
identify_in _ typed user s = (s, err (StateError.wrong_state (state s)))

unfoldable pub record_identified_user :
    Text → User → Session → Session × Result StateError NameTypedOutcome
record_identified_user typed user s = identify_in s.phase typed user s

-- The counter is a u32.
abbrev unknown_in :
    SessionPhase → SystemTime → Session → Session × Result StateError NameTypedOutcome
unknown_in (SessionPhase.identifying n) now s =
    let retries = (n + 1) % 2 ^ 32 in
    if leb max_name_retries retries
    then (
      record s {
        phase =
            SessionPhase.ended CallSalvage.unidentified (some LogoffReason.new_user_rejected)
              (some now);
      },
      ok NameTypedOutcome.session_ended,
    )
    else (record s { phase = SessionPhase.identifying retries }, ok NameTypedOutcome.not_found)
unknown_in _ now s = (s, err (StateError.wrong_state (state s)))

unfoldable pub record_unknown_name :
    SystemTime → Session → Session × Result StateError NameTypedOutcome
record_unknown_name now s = unknown_in s.phase now s
