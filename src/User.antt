-- ===== src/User.antt =====
-- rust/src/domain/user/mod.rs: the user aggregate. Its value objects are the child modules of the
-- files beside it; a method that only passes a call on to one of them is the call itself here.
pub mod Account
pub mod Auth
pub mod Usage
pub mod Preferences
pub mod Access
pub mod Persisted
pub mod Pointers
pub mod Patch
use nextexpress.Prelude.{
  ℕ, Bool, true, false, Option, none, some, List, [], ◌∷◌, Result, ok, err, ◌==◌, if◌then◌else◌,
}
use nextexpress.Text.{Text}
use nextexpress.Time.{SystemTime}
use nextexpress.ReadPointers.{ReadPointers}
use nextexpress.Conference.{MessageBaseRef}
use nextexpress.Password.{PasswordHashKind}
use Account.{AccountStatus, existing, awaiting_validation}
use Auth.{Credentials, UserError}
use Auth
use Usage.{UsageAccounting, for_fresh_registration}
use Usage
use Preferences.{Profile, RatioPolicy, RatioMode, UserFlag}
use Preferences
use Access.{ConferenceAccess, read_pointers_for}
use Access

pub record User : Type 0 where
  pub slot_number : ℕ
  pub handle : Text
  pub credentials : Credentials
  pub account : AccountStatus
  pub usage : UsageAccounting
  pub profile : Profile
  pub ratio : RatioPolicy
  pub conferences : ConferenceAccess

pub data Right : Type 0 where
  read_message enter_message comment_to_sysop message_edit attach_files download upload : Right
  override_time_limit edit_files create_conference edit_conference_flags : Right

abbrev all_rights : List Right
all_rights =
    Right.read_message ∷ Right.enter_message ∷ Right.comment_to_sysop ∷ Right.message_edit
    ∷ Right.attach_files ∷ Right.download ∷ Right.upload ∷ Right.override_time_limit
    ∷ Right.edit_files ∷ Right.create_conference ∷ Right.edit_conference_flags ∷ []

unfoldable pub new :
    ℕ → Text → PasswordHashKind → Text → Option Text → SystemTime → ℕ → Result UserError User
unfolding Auth.new existing Usage.new Preferences.existing Access.new
new slot handle kind hash salt updated access_level = elim (Auth.new kind hash salt updated) [
  | err e ↦ err e
  | ok credentials ↦ ok (record {
    slot_number = slot;
    handle = handle;
    credentials = credentials;
    account = existing access_level;
    usage = Usage.new;
    profile = Preferences.existing updated;
    ratio = record { mode = RatioMode.disabled; value = 0 };
    conferences = Access.new;
  })
]

pub record NewUserDraft : Type 0 where
  pub handle : Text
  pub location : Option Text
  pub phone_number : Option Text
  pub email : Option Text
  pub password_hash : Text
  pub password_salt : Option Text
  pub password_hash_kind : PasswordHashKind
  pub line_length : ℕ
  pub ansi_colour : Bool
  pub flags : List UserFlag
  pub ratio_mode : RatioMode
  pub ratio_value : ℕ
  pub now : SystemTime

unfoldable pub register_new : ℕ → NewUserDraft → Result UserError User
unfolding Auth.new awaiting_validation for_fresh_registration Access.new
register_new slot draft =
    elim (Auth.new draft.password_hash_kind draft.password_hash draft.password_salt draft.now) [
      | err e ↦ err e
      | ok credentials ↦ ok (record {
        slot_number = slot;
        handle = draft.handle;
        credentials = credentials;
        account = awaiting_validation;
        usage = for_fresh_registration draft.now;
        profile = record {
          location = draft.location;
          phone_number = draft.phone_number;
          email = draft.email;
          line_length = draft.line_length;
          ansi_colour = draft.ansi_colour;
          expert_mode = false;
          account_created = draft.now;
          flags = draft.flags;
        };
        ratio = record { mode = draft.ratio_mode; value = draft.ratio_value };
        conferences = Access.new;
      })
    ]

unfoldable pub is_sysop : User → Bool
is_sysop user = user.slot_number == 1

abbrev right_of_new_user : Right → Bool
right_of_new_user Right.read_message = true
right_of_new_user Right.comment_to_sysop = true
right_of_new_user _ = false

abbrev overrides_time_limit : Right → Bool
overrides_time_limit Right.override_time_limit = true
overrides_time_limit _ = false

unfoldable pub has_access : User → Right → Bool
unfolding is_sysop
has_access user right =
    if user.account.new_user
    then right_of_new_user right
    else if overrides_time_limit right
    then is_sysop user
    else true

unfoldable pub last_scanned_for : MessageBaseRef → User → ℕ
unfolding read_pointers_for
last_scanned_for coord user = elim (read_pointers_for coord user.conferences) [
  | none ↦ 0
  | some row ↦ row.last_scanned
]
