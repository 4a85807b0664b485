-- ===== src/Examples/Fixtures.antt =====
-- A user, two conferences, a policy, a session, and a mail store with its laws.
use nextexpress.Prelude.{
  ℕ, ◌+◌, refl, true, false, Option, none, some, List, [], ◌∷◌, Result, ok, err, ◌==◌, codes,
  if◌then◌else◌, arith, Every,
}
use nextexpress.Time.{from_mins}
use nextexpress.Conference.{
  Conference, MessageBase, NameType, AllowedAddressing, AllScanScope, IsConference, MessageBaseRef,
  msgbase_ref_eq,
}
use nextexpress.Conference.Membership.{ConferenceMembership}
use nextexpress.Password.{PasswordHashKind}
use nextexpress.User.{User}
use nextexpress.User.Preferences.{RatioMode}
use nextexpress.Session.{Session, SessionPhase}
use nextexpress.Session.State.{LogonChannel}
use nextexpress.Session.Policy.{SessionPolicy}
use nextexpress.Session.Trace.{Deployment}
use nextexpress.Messaging.{Mail, MailDraft, from_draft}
use nextexpress.Messaging.Store.{
  MailStore, MailStoreError, IsMailStore, message_missing, msgbase_mismatch,
}

abbrev pub base_of : ℕ → MessageBase
base_of n = record {
  conference_number = n;
  number = 1;
  name = codes "Mail";
  allowed_addressing = AllowedAddressing.any;
  all_scan_scope = AllScanScope.local;
}

abbrev pub conference_of : ℕ → Conference
conference_of n = record {
  number = n;
  name = codes "Main";
  msgbases = base_of n ∷ [];
  accepted_name_type = NameType.real_name;
}

abbrev pub catalogue : List Conference
catalogue = conference_of 1 ∷ conference_of 2 ∷ []

pub catalogue-IsConference : Every IsConference catalogue
catalogue-IsConference = (
  record { has_base = ground arith; owns_bases = (refl, tt) },
  (record { has_base = ground arith; owns_bases = (refl, tt) }, tt),
)

abbrev pub row_in_two : ConferenceMembership
row_in_two = record {
  conference_number = 2;
  granted = true;
  pointers = [];
  messages_posted = 0;
  mail_scan = true;
  mailscan_all = false;
  file_scan = true;
  zoom_scan = false;
}

-- A member of conference 2.
abbrev pub alice : User
alice = record {
  slot_number = 7;
  handle = codes "alice";
  credentials = record {
    hash_kind = PasswordHashKind.pbkdf2_10000;
    hash = codes "h";
    salt = some (codes "s");
    last_updated = 0;
    reset = false;
  };
  account = record {
    access_level = 20;
    invalid_attempts = 0;
    account_locked = false;
    new_user = false;
    censored = false;
  };
  usage = record {
    times_called = 0;
    last_call = none;
    time_limit_per_call = from_mins 30;
    time_limit_per_day = from_mins 60;
    time_used_today = 0;
    times_called_today = 0;
  };
  profile = record {
    location = none;
    phone_number = none;
    email = none;
    line_length = 22;
    ansi_colour = true;
    expert_mode = false;
    account_created = 0;
    flags = [];
  };
  ratio = record { mode = RatioMode.disabled; value = 0 };
  conferences = record { memberships = row_in_two ∷ []; last_joined = none; messages_posted = 0 };
}

-- Three failures, and the account is locked.
abbrev pub strict : SessionPolicy
strict = record {
  max_password_failures = 3;
  daily_reset_offset = 0;
  password_expiry_days = 0;
  min_password_length = 0;
  min_password_categories = 0;
  input_timeout = from_mins 5;
  treat_timeout_as_logoff = false;
  max_registration_handle_attempts = 5;
}

abbrev pub board : Deployment
board = record { policy = strict; max_gate_attempts = 3; conferences = catalogue }

abbrev pub session_in : SessionPhase → Session
session_in phase = record {
  shared = record {
    node_number = 1;
    channel = LogonChannel.remote;
    connected_at = 10;
    last_input_at = 10;
    online_baud = 9600;
    quick_logon = false;
    quiet_mode = false;
    display_name_type = NameType.handle;
  };
  phase = phase;
  activity = record { visits = []; scan = none };
  flagged_files = record { set = [] };
  persist_baseline = none;
}

-- A mail store: the numbers that are in use, and their mails.
pub record Shelf : Type 0 where
  pub highest : ℕ
  pub base : MessageBaseRef
  pub mails : ℕ → Option Mail

-- A mail lies at its own number only.
abbrev pub at_number : ℕ → Option Mail → Option Mail
at_number n none = none
at_number n (some mail) = if mail.number == n then some mail else none

abbrev pub shelf_load : ℕ → Shelf → Option Mail
shelf_load n shelf = at_number n (shelf.mails n)

abbrev put : Mail → Shelf → ℕ → Option Mail
put mail shelf n = if mail.number == n then some mail else shelf.mails n

abbrev pub shelf_insert : MailDraft → Shelf → Shelf × Mail
shelf_insert draft shelf =
    let mail = from_draft shelf.base (shelf.highest + 1) draft in
    (record shelf { highest = shelf.highest + 1; mails = put mail shelf }, mail)

abbrev save_at : Option Mail → Mail → Shelf → Shelf × Result MailStoreError (Unit {0})
save_at none mail shelf = (shelf, err (message_missing mail.number shelf.base))
save_at (some old) mail shelf = (record shelf { mails = put mail shelf }, ok tt)

abbrev pub shelf_save : Mail → Shelf → Shelf × Result MailStoreError (Unit {0})
shelf_save mail shelf =
    if msgbase_ref_eq mail.msgbase shelf.base
    then save_at (shelf_load mail.number shelf) mail shelf
    else (shelf, err (msgbase_mismatch mail.msgbase shelf.base))

abbrev pub shelf_store : MailStore Shelf
shelf_store = record {
  highest_message = λ shelf. shelf.highest;
  msgbase = λ shelf. shelf.base;
  insert = λ draft shelf. let (shelf', mail) = shelf_insert draft shelf in (shelf', ok mail);
  load = λ n shelf. ok (shelf_load n shelf);
  save = shelf_save;
}

pub shelf_store-IsMailStore : IsMailStore shelf_store
unfolding from_draft
shelf_store-IsMailStore = record {
  load_number = λ n s mail h. ground arith;
  insert_ok = λ draft s t mail h. ground arith;
  insert_else = λ draft s t mail n h ne. ground arith;
  insert_err = λ draft s t e h. ground arith;
  save_ok = λ mail s t h. ground arith;
  save_else = λ mail s t n h ne. ground arith;
}
