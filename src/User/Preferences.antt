-- ===== src/User/Preferences.antt =====
-- rust/src/domain/user/profile.rs and ratio_policy.rs: what the user entered, the preferences, and
-- the ratio settings. A set of flags is a list of them here: the code only stores and copies it.
use nextexpress.Prelude.{ℕ, Bool, false, Option, none, List, []}
use nextexpress.Text.{Text}
use nextexpress.Time.{SystemTime}

pub data UserFlag : Type 0 where
  show_new_user_message auto_join_first_conf show_one_time_messages : UserFlag
  screen_clear_after_message is_donor editor_full_screen editor_prompts : UserFlag
  background_file_check : UserFlag

pub data RatioMode : Type 0 where
  disabled by_files by_bytes : RatioMode

pub record Profile : Type 0 where
  pub location : Option Text
  pub phone_number : Option Text
  pub email : Option Text
  pub line_length : ℕ
  pub ansi_colour : Bool
  pub expert_mode : Bool
  pub account_created : SystemTime
  pub flags : List UserFlag

unfoldable pub existing : SystemTime → Profile
existing account_created = record {
  location = none;
  phone_number = none;
  email = none;
  line_length = 0;
  ansi_colour = false;
  expert_mode = false;
  account_created = account_created;
  flags = [];
}

unfoldable set_expert_mode : Bool → Profile → Profile
set_expert_mode value profile = record profile { expert_mode = value }

pub record RatioPolicy : Type 0 where
  pub mode : RatioMode
  pub value : ℕ
