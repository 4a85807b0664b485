-- ===== src/User/Persisted.antt =====
-- `PersistedUser` of rust/src/domain/user/persisted.rs, and the two directions between it and the
-- aggregate in rust/src/domain/user/mod.rs.
use nextexpress.Prelude.{ℕ, ◌≡◌, ◌↔◌, Bool, Option, none, some, List, Result, ok, err, arith}
use nextexpress.Text.{Text}
use nextexpress.Time.{SystemTime, Duration}
use nextexpress.Conference.{MessageBaseRef}
use nextexpress.Conference.Membership.{ConferenceMembership}
use nextexpress.Password.{PasswordHashKind}
use nextexpress.User.{User}
use nextexpress.User.Auth
use nextexpress.User.Auth.{UserError, salt_required}
use nextexpress.User.Preferences.{RatioMode, UserFlag}

pub record PersistedUser : Type 0 where
  pub slot_number : ℕ
  pub handle : Text
  pub password_hash_kind : PasswordHashKind
  pub password_hash : Text
  pub password_salt : Option Text
  pub password_last_updated : SystemTime
  pub force_password_reset : Bool
  pub access_level : ℕ
  pub invalid_attempts : ℕ
  pub account_locked : Bool
  pub is_new_user : Bool
  pub censored : Bool
  pub times_called : ℕ
  pub times_called_today : ℕ
  pub last_call : Option SystemTime
  pub time_limit_per_call : Duration
  pub time_limit_per_day : Duration
  pub time_used_today : Duration
  pub location : Option Text
  pub phone_number : Option Text
  pub email : Option Text
  pub line_length : ℕ
  pub ansi_colour : Bool
  pub expert_mode : Bool
  pub account_created : SystemTime
  pub flags : List UserFlag
  pub ratio_mode : RatioMode
  pub ratio_value : ℕ
  pub memberships : List ConferenceMembership
  pub last_joined : Option MessageBaseRef
  pub messages_posted : ℕ

unfoldable pub to_persisted : User → PersistedUser
to_persisted user = record {
  slot_number = user.slot_number;
  handle = user.handle;
  password_hash_kind = user.credentials.hash_kind;
  password_hash = user.credentials.hash;
  password_salt = user.credentials.salt;
  password_last_updated = user.credentials.last_updated;
  force_password_reset = user.credentials.reset;
  access_level = user.account.access_level;
  invalid_attempts = user.account.invalid_attempts;
  account_locked = user.account.account_locked;
  is_new_user = user.account.new_user;
  censored = user.account.censored;
  times_called = user.usage.times_called;
  times_called_today = user.usage.times_called_today;
  last_call = user.usage.last_call;
  time_limit_per_call = user.usage.time_limit_per_call;
  time_limit_per_day = user.usage.time_limit_per_day;
  time_used_today = user.usage.time_used_today;
  location = user.profile.location;
  phone_number = user.profile.phone_number;
  email = user.profile.email;
  line_length = user.profile.line_length;
  ansi_colour = user.profile.ansi_colour;
  expert_mode = user.profile.expert_mode;
  account_created = user.profile.account_created;
  flags = user.profile.flags;
  ratio_mode = user.ratio.mode;
  ratio_value = user.ratio.value;
  memberships = user.conferences.memberships;
  last_joined = user.conferences.last_joined;
  messages_posted = user.conferences.messages_posted;
}

unfoldable pub from_persisted : PersistedUser → Result UserError User
unfolding Auth.new
from_persisted state =
    elim (Auth.new state.password_hash_kind state.password_hash state.password_salt
      state.password_last_updated) [
        | err e ↦ err e
        | ok credentials ↦ ok (record {
          slot_number = state.slot_number;
          handle = state.handle;
          credentials = record credentials { reset = state.force_password_reset };
          account = record {
            access_level = state.access_level;
            invalid_attempts = state.invalid_attempts;
            account_locked = state.account_locked;
            new_user = state.is_new_user;
            censored = state.censored;
          };
          usage = record {
            times_called = state.times_called;
            last_call = state.last_call;
            time_limit_per_call = state.time_limit_per_call;
            time_limit_per_day = state.time_limit_per_day;
            time_used_today = state.time_used_today;
            times_called_today = state.times_called_today;
          };
          profile = record {
            location = state.location;
            phone_number = state.phone_number;
            email = state.email;
            line_length = state.line_length;
            ansi_colour = state.ansi_colour;
            expert_mode = state.expert_mode;
            account_created = state.account_created;
            flags = state.flags;
          };
          ratio = record { mode = state.ratio_mode; value = state.ratio_value };
          conferences = record {
            memberships = state.memberships;
            last_joined = state.last_joined;
            messages_posted = state.messages_posted;
          };
        })
      ]

-- `SaltMatchesAlgorithm`: the one hash kind there is needs a salt.
abbrev pub HasSalt : User → Type 0
HasSalt user = (salt : Text) × (user.credentials.salt ≡ some salt)

-- A user with a salt is read back from its snapshot unchanged.
pub from_persisted-to_persisted :
    (user : User) → HasSalt user → from_persisted (to_persisted user) ≡ ok user
unfolding from_persisted to_persisted
from_persisted-to_persisted user (salt, e) = ground arith

-- A snapshot is refused exactly for want of a salt, and every user that one loads as has that
-- snapshot.
pub to_persisted-from_persisted :
    (state : PersistedUser)
    → ((state.password_salt ≡ none) ↔ (from_persisted state ≡ err salt_required))
      × ((user : User) → from_persisted state ≡ ok user → to_persisted user ≡ state)
unfolding from_persisted to_persisted
to_persisted-from_persisted state = (ground arith, λ user h. ground arith)
