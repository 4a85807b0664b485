-- ===== src/Examples/Patches.antt =====
-- The theorems on patches, at one user.
use nextexpress.Prelude.{ℕ, min, ◌+◌, ◌≡◌, refl, true, some, [], ◌∷◌, arith, u32_max}
use nextexpress.Time.{duration_max}
use nextexpress.ReadPointers.{ReadPointers}
use nextexpress.Conference.Membership.{ConferenceMembership}
use nextexpress.User.Persisted.{PersistedUser, to_persisted}
use nextexpress.User.Patch.{UserPatch, between, apply_to}
use nextexpress.User.Patch.Merge.{
  HasMovedOn, with_session_state, apply_to-between, apply_to-apply_to, IsNoEarlier, IsOneOf,
}
use nextexpress.User.Patch.Unchanged.{nothing_changed}
use nextexpress.Session.{rebaseline_persisted}
use nextexpress.Session.Commands.{pending_user_patch}
use nextexpress.Session.Saving.{pending_user_patch-rebaseline_persisted}
use nextexpress.Examples.Fixtures.{alice, row_in_two}
use nextexpress.Examples.Commands.{onboarded_as}

abbrev read_to : ℕ → ℕ → ReadPointers
read_to base n = record { msgbase_number = base; last_read = n; last_scanned = n; new_since = 5 }

abbrev before : PersistedUser
unfolding to_persisted
before = record (to_persisted alice) {
  times_called = 4;
  last_call = some 100;
  memberships = record row_in_two { pointers = read_to 1 3 ∷ [] } ∷ [];
}

abbrev row_in_three : ConferenceMembership
row_in_three = record row_in_two {
  conference_number = 3;
  mailscan_all = true;
  pointers = read_to 1 8 ∷ [];
}

-- A call later: mail read and posted in conference 2, conference 3 joined, the expert mode set.
abbrev after : PersistedUser
after = record before {
  times_called = 5;
  last_call = some 900;
  messages_posted = 2;
  expert_mode = true;
  last_joined = some (record { conference_number = 3; msgbase_number = 1 });
  memberships =
      record row_in_two { messages_posted = 2; pointers = read_to 1 9 ∷ read_to 2 1 ∷ [] }
      ∷ row_in_three
      ∷ [];
}

before-HasMovedOn : HasMovedOn before after
unfolding before
before-HasMovedOn = record {
  times_called = omega arith;
  times_called_today = omega arith;
  time_used_today = omega arith;
  messages_posted = omega arith;
  last_call = omega arith;
  last_joined = tt;
  memberships = (
    ((refl, tt), (tt, tt)),
    (
      refl,
      (
        omega arith,
        omega arith,
        ((refl, tt), (tt, tt)),
        (refl, (refl, omega arith, omega arith, omega arith), (omega arith, tt)),
      ),
      ((omega arith, (tt, tt), (omega arith, tt)), tt),
    ),
  );
}

apply_to-between_example : apply_to (between before after) before ≡ with_session_state after before
apply_to-between_example = apply_to-between before after before-HasMovedOn

pending_user_patch-rebaseline_persisted_example :
    pending_user_patch (rebaseline_persisted (onboarded_as alice)) ≡ some (7, nothing_changed)
pending_user_patch-rebaseline_persisted_example =
    pending_user_patch-rebaseline_persisted (onboarded_as alice) refl ((tt, tt), (tt, tt))

abbrev other_window : UserPatch
other_window = record nothing_changed { times_called_delta = 1; last_call = some 700 }

apply_to-apply_to_example :
    let both = apply_to other_window (apply_to (between before after) before) in
    let swapped = apply_to (between before after) (apply_to other_window before) in
    (both.times_called ≡ min (4 + (between before after).times_called_delta + 1) u32_max)
    × (both.times_called_today
        ≡ min (0 + (between before after).times_called_today_delta + 0) u32_max)
    × (both.time_used_today
        ≡ min (0 + (between before after).time_used_today_delta + 0) duration_max)
    × (both.messages_posted ≡ min (0 + (between before after).messages_posted_delta + 0) u32_max)
    × (both.last_call ≡ swapped.last_call)
    × IsNoEarlier (some 100) both.last_call
    × IsNoEarlier (between before after).last_call both.last_call
    × IsNoEarlier (some 700) both.last_call
    × IsOneOf both.last_call (some 100) (between before after).last_call (some 700)
unfolding between before apply_to
apply_to-apply_to_example = apply_to-apply_to (between before after) other_window before
