-- ===== src/User/Patch/Unchanged.antt =====
-- The patch of rust/src/domain/user/commands.rs between a snapshot and itself.
use nextexpress.Prelude.{
  ℕ, ◌-◌, Bool, ◌==◌, if◌then◌else◌, ◌≡◌, refl, ap, ◌∙◌, inl, inr, true, false, Option, none, some,
  List, [], ◌∷◌, map, arith, find, Every, Every-map, Option-cases,
}
use nextexpress.Prelude.Keyed.{HasDistinctKeys, Fits, find_self, filter_map-none, filter-none}
use nextexpress.Time.{SystemTime}
use nextexpress.ReadPointers.{ReadPointers}
use nextexpress.Conference.{MessageBaseRef, msgbase_ref_eq}
use nextexpress.Conference.Membership.{ConferenceMembership, ScanFlagSettings, of_base}
use nextexpress.User.Access.{of_conference}
use nextexpress.User.Preferences.{UserFlag}
use nextexpress.User.Persisted.{PersistedUser}
use nextexpress.User.Patch.{
  UserPatch, changed, bool_eq, settings_eq, option_eq, flags_eq, flatten, scan_flag_settings,
  pointer_patch, pointer_patches, has_advanced, row_of, membership_patch_between, membership_diff,
  between,
}
use nextexpress.User.Patch.Rows.{base_of}
use nextexpress.User.Patch.Memberships.{conference_of}

-- `UserPatch::default()`
abbrev pub nothing_changed : UserPatch
nothing_changed = record {
  times_called_delta = 0;
  times_called_today_delta = 0;
  time_used_today_delta = 0;
  messages_posted_delta = 0;
  last_call = none;
  expert_mode = none;
  flags = none;
  last_joined = none;
  memberships = [];
}

-- No two membership rows are of one conference, and no two pointer rows of one base.
abbrev pub HasDistinctRows : List ConferenceMembership → Type 0
HasDistinctRows rows =
    HasDistinctKeys conference_of rows × Every (λ m. HasDistinctKeys base_of m.pointers) rows

not_advanced :
    (rows : List ReadPointers) (p : ReadPointers)
    → Fits base_of (λ b c. b ≡ c) (λ c. ⊥) (find (of_base p.msgbase_number) rows) p
    → has_advanced (row_of rows p) p ≡ false
not_advanced rows p fit = elim (Option-cases (row_of rows p)) [
  | inl e ↦ absurd (rw e at fit)
  | inr (b, e) ↦ rw e (let same : b ≡ p = (rw e at fit) in ground arith)
]

no_pointers :
    (rows : List ReadPointers) → HasDistinctKeys base_of rows → pointer_patches rows rows ≡ []
no_pointers rows d = ap (map pointer_patch) (
    filter-none (λ p. has_advanced (row_of rows p) p) rows
      (Every-map (not_advanced rows) rows (find_self base_of rows d)))

same_settings : (s : ScanFlagSettings) → changed settings_eq s s ≡ none
same_settings s = ground arith

same_bool : (b : Bool) → changed bool_eq b b ≡ none
same_bool b = ground arith

same_flags : (fs : List UserFlag) → flags_eq fs fs ≡ true
same_flags [] = refl
same_flags (f ∷ fs) = ground (arith, same_flags fs)

unchanged_membership :
    (c : ConferenceMembership)
    → HasDistinctKeys base_of c.pointers
    → membership_patch_between (some c) c ≡ none
unfolding membership_patch_between
unchanged_membership c d =
    ground
      (arith, no_pointers c.pointers d, same_settings (scan_flag_settings c), same_bool c.granted)

no_diff :
    (rows : List ConferenceMembership) (c : ConferenceMembership)
    → HasDistinctKeys base_of c.pointers
    → Fits conference_of (λ b c. b ≡ c) (λ c. ⊥) (find (of_conference c.conference_number) rows) c
    → membership_diff rows c ≡ none
unfolding membership_diff
no_diff rows c d fit = elim (Option-cases (find (of_conference c.conference_number) rows)) [
  | inl e ↦ absurd (rw e at fit)
  | inr (b, e) ↦
      rw e (ap (λ m. membership_patch_between (some m) c) (rw e at fit) ∙ unchanged_membership c d)
]

no_diffs :
    (rows cs : List ConferenceMembership)
    → Every (λ m. HasDistinctKeys base_of m.pointers) cs
    → Every
        (λ c.
          Fits conference_of
            (λ b c. b ≡ c)
            (λ c. ⊥)
            (find (of_conference c.conference_number) rows)
            c)
        cs
    → Every (λ c. membership_diff rows c ≡ none) cs
no_diffs rows [] ds fits = tt
no_diffs rows (c ∷ cs) ds fits = (no_diff rows c ds.0 fits.0, no_diffs rows cs ds.1 fits.1)

same_call : (t : Option SystemTime) → changed (option_eq ◌==◌) t t ≡ none
same_call t = ground arith

same_place : (r : Option MessageBaseRef) → changed (option_eq msgbase_ref_eq) r r ≡ none
same_place r = ground arith

same_count : (n : ℕ) → n - n ≡ 0
same_count n = omega arith

-- Between a snapshot and itself there is nothing to save.
pub between_same :
    (state : PersistedUser)
    → HasDistinctRows state.memberships
    → between state state ≡ nothing_changed
unfolding between
between_same state (distinct, rows) = λ i. record {
  times_called_delta = same_count state.times_called i;
  times_called_today_delta = same_count state.times_called_today i;
  time_used_today_delta = same_count state.time_used_today i;
  messages_posted_delta = same_count state.messages_posted i;
  last_call = flatten (same_call state.last_call i);
  expert_mode = same_bool state.expert_mode i;
  flags = ap (λ b. if b then none else some state.flags) (same_flags state.flags) i;
  last_joined = flatten (same_place state.last_joined i);
  memberships =
      filter_map-none (membership_diff state.memberships) state.memberships
        (no_diffs state.memberships state.memberships rows
          (find_self conference_of state.memberships distinct))
        i;
}
