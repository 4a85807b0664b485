-- ===== src/User/Patch.antt =====
-- `UserPatch` of rust/src/domain/user/commands.rs: what a session changed of its user since the
-- last save, and the merge of that into the stored snapshot. A set of flags is the list of its
-- elements in their order, so that two sets are equal if their lists are.
pub mod Rows
pub mod Memberships
pub mod Merge
pub mod Unchanged
use nextexpress.Prelude.{
  ℕ, ◌-◌, max, Bool, true, false, ◌&&◌, ◌||◌, not, Option, none, some, List, [], ◌∷◌, ◌++◌, map,
  ltb, ◌==◌, find, filter, saturating_add, map_or, if◌then◌else◌, update_first,
}
use nextexpress.Prelude.Keyed.{filter_map, apply_all}
use nextexpress.Time.{SystemTime, Duration, duration_saturating_add}
use nextexpress.ReadPointers.{ReadPointers, fresh, advance_last_read, advance_last_scanned}
use nextexpress.Conference.{MessageBaseRef, msgbase_ref_eq}
use nextexpress.Conference.Membership.{
  ConferenceMembership, ScanFlagSettings, ScanFlag, scan_flag, set_scan_flags, set_granted,
  add_messages_posted, pointers_for, upsert_pointers, update_pointers,
}
use nextexpress.Conference.Membership
use nextexpress.User.Access.{of_conference}
use nextexpress.User.Preferences.{UserFlag}
use nextexpress.User.Persisted.{PersistedUser}

pub record PointerPatch : Type 0 where
  pub msgbase_number : ℕ
  pub last_read : ℕ
  pub last_scanned : ℕ
  pub new_since : SystemTime

pub record MembershipPatch : Type 0 where
  pub conference_number : ℕ
  pub create_if_missing : Bool
  pub granted : Option Bool
  pub messages_posted_delta : ℕ
  pub scan_flags : Option ScanFlagSettings
  pub pointers : List PointerPatch

pub record UserPatch : Type 0 where
  pub times_called_delta : ℕ
  pub times_called_today_delta : ℕ
  pub time_used_today_delta : Duration
  pub messages_posted_delta : ℕ
  pub last_call : Option SystemTime
  pub expert_mode : Option Bool
  pub flags : Option (List UserFlag)
  pub last_joined : Option MessageBaseRef
  pub memberships : List MembershipPatch

-- `option.is_none()` and `rows.is_empty()`.
abbrev pub is_none : {A : Type 0} → Option A → Bool
is_none none = true
is_none (some a) = false

abbrev pub no_rows : List PointerPatch → Bool
no_rows [] = true
no_rows (p ∷ ps) = false

-- The derived equalities of the values that a patch compares.
abbrev pub bool_eq : Bool → Bool → Bool
bool_eq true b = b
bool_eq false b = not b

abbrev pub option_eq : {A : Type 0} → (A → A → Bool) → Option A → Option A → Bool
option_eq eq none none = true
option_eq eq (some a) (some b) = eq a b
option_eq eq _ _ = false

abbrev pub flag_rank : UserFlag → ℕ
flag_rank UserFlag.show_new_user_message = 0
flag_rank UserFlag.auto_join_first_conf = 1
flag_rank UserFlag.show_one_time_messages = 2
flag_rank UserFlag.screen_clear_after_message = 3
flag_rank UserFlag.is_donor = 4
flag_rank UserFlag.editor_full_screen = 5
flag_rank UserFlag.editor_prompts = 6
flag_rank UserFlag.background_file_check = 7

abbrev pub flags_eq : List UserFlag → List UserFlag → Bool
flags_eq [] [] = true
flags_eq (a ∷ as') (b ∷ bs) = flag_rank a == flag_rank b && flags_eq as' bs
flags_eq _ _ = false

abbrev pub settings_eq : ScanFlagSettings → ScanFlagSettings → Bool
settings_eq a b =
    bool_eq a.mail_scan b.mail_scan
    && bool_eq a.mailscan_all b.mailscan_all
    && bool_eq a.file_scan b.file_scan
    && bool_eq a.zoom_scan b.zoom_scan

abbrev pub changed : {A : Type 0} → (A → A → Bool) → A → A → Option A
changed eq baseline current = if eq current baseline then none else some current

-- `option.flatten()`
abbrev pub flatten : {A : Type 0} → Option (Option A) → Option A
flatten none = none
flatten (some o) = o

unfoldable pub scan_flag_settings : ConferenceMembership → ScanFlagSettings
unfolding scan_flag
scan_flag_settings m = record {
  mail_scan = scan_flag ScanFlag.mail_scan m;
  mailscan_all = scan_flag ScanFlag.mail_scan_all m;
  file_scan = scan_flag ScanFlag.file_scan m;
  zoom_scan = scan_flag ScanFlag.zoom m;
}

unfoldable pub pointer_patch : ReadPointers → PointerPatch
pointer_patch row = record {
  msgbase_number = row.msgbase_number;
  last_read = row.last_read;
  last_scanned = row.last_scanned;
  new_since = row.new_since;
}

-- The test of the filter: a row that is new, or that has advanced.
abbrev pub has_advanced : Option ReadPointers → ReadPointers → Bool
has_advanced none p = true
has_advanced (some bp) p = ltb bp.last_read p.last_read || ltb bp.last_scanned p.last_scanned

abbrev pub row_of : List ReadPointers → ReadPointers → Option ReadPointers
row_of base p = find (λ b. b.msgbase_number == p.msgbase_number) base

abbrev pub pointer_patches : List ReadPointers → List ReadPointers → List PointerPatch
pointer_patches base cur = map pointer_patch (filter (λ p. has_advanced (row_of base p) p) cur)

abbrev pub is_empty_patch : MembershipPatch → Bool
is_empty_patch patch =
    is_none patch.granted
    && is_none patch.scan_flags
    && patch.messages_posted_delta == 0
    && no_rows patch.pointers

unfoldable pub membership_patch_between :
    Option ConferenceMembership → ConferenceMembership → Option MembershipPatch
unfolding scan_flag_settings pointer_patch
membership_patch_between none cur = some (record {
  conference_number = cur.conference_number;
  create_if_missing = true;
  granted = some cur.granted;
  messages_posted_delta = cur.messages_posted;
  scan_flags = some (scan_flag_settings cur);
  pointers = map pointer_patch cur.pointers;
})
membership_patch_between (some base) cur =
    let patch : MembershipPatch = record {
      conference_number = cur.conference_number;
      create_if_missing = false;
      granted = changed bool_eq base.granted cur.granted;
      messages_posted_delta = cur.messages_posted - base.messages_posted;
      scan_flags = changed settings_eq (scan_flag_settings base) (scan_flag_settings cur);
      pointers = pointer_patches base.pointers cur.pointers;
    } in
    if is_empty_patch patch then none else some patch

abbrev pub membership_diff :
    List ConferenceMembership → ConferenceMembership → Option MembershipPatch
unfolding membership_patch_between
membership_diff base cur =
    membership_patch_between (find (of_conference cur.conference_number) base) cur

unfoldable pub between : PersistedUser → PersistedUser → UserPatch
unfolding membership_patch_between
between baseline current = record {
  times_called_delta = current.times_called - baseline.times_called;
  times_called_today_delta = current.times_called_today - baseline.times_called_today;
  time_used_today_delta = current.time_used_today - baseline.time_used_today;
  messages_posted_delta = current.messages_posted - baseline.messages_posted;
  last_call = flatten (changed (option_eq ◌==◌) baseline.last_call current.last_call);
  expert_mode = changed bool_eq baseline.expert_mode current.expert_mode;
  flags = changed flags_eq baseline.flags current.flags;
  last_joined =
      flatten (changed (option_eq msgbase_ref_eq) baseline.last_joined current.last_joined);
  memberships = filter_map (membership_diff baseline.memberships) current.memberships;
}

-- One round of the loop over the pointer patches.
unfoldable pub apply_pointer : PointerPatch → ConferenceMembership → ConferenceMembership
unfolding pointers_for upsert_pointers update_pointers fresh advance_last_read advance_last_scanned
apply_pointer patch m =
    let created = upsert_pointers (fresh patch.msgbase_number patch.new_since) m in
    update_pointers patch.msgbase_number
      (λ row. advance_last_scanned patch.last_scanned (advance_last_read patch.last_read row))
      (elim (pointers_for m patch.msgbase_number) [ none ↦ created | some row ↦ m ])

abbrev pub or_keep : {A S : Type 0} → (A → S → S) → Option A → S → S
or_keep write none s = s
or_keep write (some a) s = write a s

-- The part of `MembershipPatch::apply_to` after the row has been found or pushed.
unfoldable pub apply_to_row : MembershipPatch → ConferenceMembership → ConferenceMembership
unfolding set_granted set_scan_flags add_messages_posted apply_pointer
apply_to_row patch m = apply_all apply_pointer patch.pointers (
    add_messages_posted patch.messages_posted_delta
      (or_keep set_scan_flags patch.scan_flags (or_keep set_granted patch.granted m)))

unfoldable pub apply_membership :
    MembershipPatch → List ConferenceMembership → List ConferenceMembership
unfolding apply_to_row Membership.new
apply_membership patch memberships =
    elim (find (of_conference patch.conference_number) memberships) [
      | some m ↦
          update_first (of_conference patch.conference_number) (apply_to_row patch) memberships
      | none ↦
          if patch.create_if_missing
          then memberships
            ++ apply_to_row patch
                (Membership.new patch.conference_number (map_or true (λ g. g) patch.granted))
              ∷ []
          else memberships
    ]

unfoldable pub apply_to : UserPatch → PersistedUser → PersistedUser
unfolding apply_membership
apply_to patch snapshot = record snapshot {
  times_called = saturating_add snapshot.times_called patch.times_called_delta;
  times_called_today = saturating_add snapshot.times_called_today patch.times_called_today_delta;
  time_used_today = duration_saturating_add snapshot.time_used_today patch.time_used_today_delta;
  messages_posted = saturating_add snapshot.messages_posted patch.messages_posted_delta;
  last_call =
      or_keep (λ at stored. some (map_or at (λ t. max t at) stored)) patch.last_call
        snapshot.last_call;
  expert_mode = or_keep (λ on stored. on) patch.expert_mode snapshot.expert_mode;
  flags = or_keep (λ set stored. set) patch.flags snapshot.flags;
  last_joined = or_keep (λ joined stored. some joined) patch.last_joined snapshot.last_joined;
  memberships = apply_all apply_membership patch.memberships snapshot.memberships;
}
