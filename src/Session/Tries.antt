-- ===== src/Session/Tries.antt =====
-- How often a caller may try a password: repeated failures of rust/src/domain/session/lockout.rs.
use nextexpress.Prelude.{
  ℕ, zero, suc, ◌+◌, ◌≤◌, ◌<◌, ◌≡◌, refl, sym, subst, ◌∙◌, true, some, arith, u32_max,
}
use nextexpress.Time.{SystemTime}
use nextexpress.User.{User}
use nextexpress.User.Account.{lock_account}
use nextexpress.Session.{Session, SessionPhase, state, user, logoff_reason}
use nextexpress.Session.State.{SessionState, LogoffReason}
use nextexpress.Session.Policy.{SessionPolicy}
use nextexpress.Session.Call.{AuthenticatingAttempt, record_password_failure}
use nextexpress.Session.Lockout.{apply_password_mismatch}

-- One wrong password after the other.
abbrev pub fail_times : ℕ → SessionPolicy → SystemTime → Session → Session
fail_times zero policy now s = s
fail_times (suc n) policy now s = fail_times n policy now (apply_password_mismatch policy now s).0

-- A session that asks for the password of a user with so many failures on record.
pub record IsAsking (invalid retries : ℕ) (s : Session) : Type 0 where
  pub asked : AuthenticatingAttempt
  pub is_asked : s.phase ≡ SessionPhase.authenticating asked
  pub on_record : asked.user.account.invalid_attempts ≡ invalid
  pub in_session : asked.password_retry_count ≡ retries

-- A session closed because its user's account has just been locked.
pub record IsLockedOut (s : Session) : Type 0 where
  pub closing : state s ≡ SessionState.logging_off
  pub for_lock : logoff_reason s ≡ some LogoffReason.locked_account
  pub locked_user : User
  pub is_bound : user s ≡ some locked_user
  pub is_locked : locked_user.account.account_locked ≡ true
  pub starts_over : locked_user.account.invalid_attempts ≡ 0

fail-IsAsking :
    (policy : SessionPolicy) (now : SystemTime) (s : Session) {invalid retries : ℕ}
    → IsAsking invalid retries s
    → retries ≤ invalid
    → invalid + 1 < policy.max_password_failures
    → policy.max_password_failures ≤ u32_max
    → IsAsking (invalid + 1) (retries + 1) (apply_password_mismatch policy now s).0
unfolding apply_password_mismatch record_password_failure lock_account
fail-IsAsking policy now s v below more width = record {
  asked = record_password_failure v.asked;
  is_asked = ground arith;
  on_record = ground arith;
  in_session = ground arith;
}

fail-IsLockedOut :
    (policy : SessionPolicy) (now : SystemTime) (s : Session) {invalid retries : ℕ}
    → IsAsking invalid retries s
    → invalid + 1 ≡ policy.max_password_failures
    → policy.max_password_failures ≤ u32_max
    → IsLockedOut (apply_password_mismatch policy now s).0
unfolding apply_password_mismatch record_password_failure lock_account
fail-IsLockedOut policy now s v last width =
    let failed = record_password_failure v.asked in
    record {
      closing = ground arith;
      for_lock = ground arith;
      locked_user = record failed.user { account = lock_account failed.user.account };
      is_bound = ground arith;
      is_locked = ground arith;
      starts_over = ground arith;
    }

recount :
    {invalid retries invalid' retries' : ℕ} {s : Session}
    → invalid ≡ invalid'
    → retries ≡ retries'
    → IsAsking invalid retries s
    → IsAsking invalid' retries' s
recount e f v = record {
  asked = v.asked;
  is_asked = v.is_asked;
  on_record = v.on_record ∙ e;
  in_session = v.in_session ∙ f;
}

fail_times-IsAsking :
    (n : ℕ) (policy : SessionPolicy) (now : SystemTime) (s : Session) {invalid retries : ℕ}
    → IsAsking invalid retries s
    → retries ≤ invalid
    → invalid + n < policy.max_password_failures
    → policy.max_password_failures ≤ u32_max
    → IsAsking (invalid + n) (retries + n) (fail_times n policy now s)
fail_times-IsAsking zero policy now s v below more width = recount (omega arith) (omega arith) v
fail_times-IsAsking (suc n) policy now s v below more width =
    let next = fail-IsAsking policy now s v below (omega arith) width in
    recount (omega arith) (omega arith) (
      fail_times-IsAsking n policy now (apply_password_mismatch policy now s).0 next (omega arith)
        (omega arith) width)

fail_times-suc :
    (n : ℕ) (policy : SessionPolicy) (now : SystemTime) (s : Session)
    → fail_times (suc n) policy now s
      ≡ (apply_password_mismatch policy now (fail_times n policy now s)).0
fail_times-suc zero policy now s = refl
fail_times-suc (suc n) policy now s =
    fail_times-suc n policy now (apply_password_mismatch policy now s).0

-- Where the policy's limit is at most the largest u32, a caller whose user has some failures on
-- record, at most as many of them in this session as on record, is asked again after each wrong
-- password as long as the failures on record stay below the policy's limit; the wrong password that
-- reaches the limit, and none before, closes the session and locks the account, whose count starts
-- over.
pub fail_times_lem :
    (n : ℕ) (policy : SessionPolicy) (now : SystemTime) (s : Session) {invalid retries : ℕ}
    → IsAsking invalid retries s
    → retries ≤ invalid
    → invalid + n + 1 ≡ policy.max_password_failures
    → policy.max_password_failures ≤ u32_max
    → IsAsking (invalid + n) (retries + n) (fail_times n policy now s)
      × IsLockedOut (fail_times (suc n) policy now s)
fail_times_lem n policy now s v below last width =
    let asking = fail_times-IsAsking n policy now s v below (omega arith) width in
    (
      asking,
      subst IsLockedOut (sym (fail_times-suc n policy now s))
          (fail-IsLockedOut policy now (fail_times n policy now s) asking last width),
    )
