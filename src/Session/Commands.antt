-- ===== src/Session/Commands.antt =====
-- Two of the commands of rust/src/domain/user/commands.rs, which carry what a session did to its
-- user to the stored snapshot, and the patch that rust/src/domain/session/mod.rs has pending.
use nextexpress.Prelude.{ℕ, true, false, Option, none, some, saturating_add, if◌then◌else◌}
use nextexpress.Text.{Text}
use nextexpress.Time.{SystemTime}
use nextexpress.Password.{PasswordHashKind}
use nextexpress.User.Persisted.{PersistedUser, to_persisted}
use nextexpress.User.Patch.{UserPatch, between}
use nextexpress.Session.{Session, user}
use nextexpress.Session.Call.{DailyBudgetOutcome}
use nextexpress.Session.Lockout.{AuthOutcome, matched, mismatched}

abbrev merge_daily : Option DailyBudgetOutcome → PersistedUser → PersistedUser
merge_daily none snapshot = snapshot
merge_daily (some DailyBudgetOutcome.new_day) snapshot = record snapshot {
  times_called_today = 0;
  time_used_today = 0;
}
merge_daily (some DailyBudgetOutcome.same_day) snapshot = record snapshot {
  times_called_today = saturating_add snapshot.times_called_today 1;
}

-- `AuthOutcome::apply_to`.
unfoldable pub apply_outcome : AuthOutcome → PersistedUser → PersistedUser
apply_outcome (matched daily force_password_reset) snapshot = merge_daily daily (record snapshot {
  invalid_attempts = 0;
  force_password_reset = if force_password_reset then true else snapshot.force_password_reset;
})
apply_outcome (mismatched lock_account) snapshot = record snapshot {
  invalid_attempts = saturating_add snapshot.invalid_attempts 1;
  account_locked = if lock_account then true else snapshot.account_locked;
}

pub record PasswordChange : Type 0 where
  pub hash : Text
  pub salt : Option Text
  pub kind : PasswordHashKind
  pub changed_at : SystemTime

-- `PasswordChange::apply_to`.
unfoldable pub apply_change : PasswordChange → PersistedUser → PersistedUser
apply_change change snapshot = record snapshot {
  password_hash = change.hash;
  password_salt = change.salt;
  password_hash_kind = change.kind;
  password_last_updated = change.changed_at;
  force_password_reset = false;
}

-- `Session::pending_user_patch`, as a release build runs it, without the debug assertion.
unfoldable pub pending_user_patch : Session → Option (ℕ × UserPatch)
unfolding to_persisted between
pending_user_patch s = elim (user s) [
  | none ↦ none
  | some u ↦ elim s.persist_baseline [
    | none ↦ none
    | some baseline ↦ some (u.slot_number, between baseline (to_persisted u))
  ]
]
