-- ===== src/User/Account.antt =====
-- rust/src/domain/user/account_status.rs: access tier, lockout counter and validation status.
use nextexpress.Prelude.{ℕ, Bool, true, false, ◌||◌, leb, saturating_add}

pub record AccountStatus : Type 0 where
  pub access_level : ℕ
  pub invalid_attempts : ℕ
  pub account_locked : Bool
  pub new_user : Bool
  pub censored : Bool

unfoldable pub existing : ℕ → AccountStatus
existing access_level = record {
  access_level = access_level;
  invalid_attempts = 0;
  account_locked = false;
  new_user = false;
  censored = false;
}

unfoldable pub awaiting_validation : AccountStatus
awaiting_validation = record {
  access_level = 2;
  invalid_attempts = 0;
  account_locked = false;
  new_user = true;
  censored = false;
}

unfoldable pub is_locked_out : AccountStatus → Bool
is_locked_out account = leb account.access_level 1 || account.account_locked

unfoldable pub bump_invalid_attempts : AccountStatus → AccountStatus
bump_invalid_attempts account = record account {
  invalid_attempts = saturating_add account.invalid_attempts 1;
}

unfoldable pub clear_invalid_attempts : AccountStatus → AccountStatus
clear_invalid_attempts account = record account { invalid_attempts = 0 }

unfoldable pub lock_account : AccountStatus → AccountStatus
lock_account account = record account { account_locked = true; invalid_attempts = 0 }

unfoldable set_censored : Bool → AccountStatus → AccountStatus
set_censored value account = record account { censored = value }
