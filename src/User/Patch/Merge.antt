-- ===== src/User/Patch/Merge.antt =====
-- `UserPatch::between` and `UserPatch::apply_to` of rust/src/domain/user/commands.rs against each
-- other.
use nextexpress.Prelude.{
  ℕ, ◌+◌, min, ◌-◌, ◌≤◌, max, ◌≡◌, ◌⊎◌, refl, Bool, true, Option, none, some, List, [], ◌∷◌, arith,
  ◌==◌, u32_max, map_or,
}
use nextexpress.Prelude.Keyed.{HasDistinctKeys, IsGrowth, filter_map, apply_all, diffs_lem}
use nextexpress.Time.{SystemTime, duration_max}
use nextexpress.Conference.Membership.{ConferenceMembership}
use nextexpress.Conference.{MessageBaseRef, msgbase_ref_eq}
use nextexpress.User.Preferences.{UserFlag}
use nextexpress.User.Persisted.{PersistedUser}
use nextexpress.User.Patch.{
  flatten, option_eq, flags_eq, UserPatch, changed, bool_eq, membership_diff, between,
  apply_membership, apply_to, or_keep,
}
use nextexpress.User.Patch.Memberships.{
  conference_of, HasGrown, IsNewMembership, membership_diff-PutsRow,
}

-- The rows of a session's user, and those that it had at the baseline: rows are only added, at the
-- end, and each row only grows.
abbrev pub HasGrownRows : List ConferenceMembership → List ConferenceMembership → Type 0
HasGrownRows base cur =
    HasDistinctKeys conference_of cur × IsGrowth conference_of HasGrown IsNewMembership base cur

abbrev pub IsNoEarlier : Option SystemTime → Option SystemTime → Type 0
IsNoEarlier none cur = Unit
IsNoEarlier (some b) none = ⊥
IsNoEarlier (some b) (some c) = b ≤ c

abbrev pub IsStillThere : Option MessageBaseRef → Option MessageBaseRef → Type 0
IsStillThere (some b) none = ⊥
IsStillThere _ _ = Unit

-- What sessions make of a user: counters grow within their types, the last call is no earlier, the
-- place last joined is not forgotten, and the membership rows grow.
pub record HasMovedOn (base cur : PersistedUser) : Type 0 where
  pub times_called : base.times_called ≤ cur.times_called × cur.times_called ≤ u32_max
  pub times_called_today :
      base.times_called_today ≤ cur.times_called_today × cur.times_called_today ≤ u32_max
  pub time_used_today :
      base.time_used_today ≤ cur.time_used_today × cur.time_used_today ≤ duration_max
  pub messages_posted : base.messages_posted ≤ cur.messages_posted × cur.messages_posted ≤ u32_max
  pub last_call : IsNoEarlier base.last_call cur.last_call
  pub last_joined : IsStillThere base.last_joined cur.last_joined
  pub memberships : HasGrownRows base.memberships cur.memberships

-- The snapshot with the families of fields that a patch can carry taken from another.
unfoldable pub with_session_state : PersistedUser → PersistedUser → PersistedUser
with_session_state cur stored = record stored {
  times_called = cur.times_called;
  times_called_today = cur.times_called_today;
  time_used_today = cur.time_used_today;
  messages_posted = cur.messages_posted;
  last_call = cur.last_call;
  expert_mode = cur.expert_mode;
  flags = cur.flags;
  last_joined = cur.last_joined;
  memberships = cur.memberships;
}

merge_counter : (b c top : ℕ) → b ≤ c → c ≤ top → min (b + (c - b)) top ≡ c
merge_counter b c top le bound = omega arith

flags_eq_lem : (a b : List UserFlag) → flags_eq a b ≡ true → a ≡ b
flags_eq_lem [] [] h = refl
flags_eq_lem (x ∷ xs) (y ∷ ys) h = ground (arith, flags_eq_lem xs ys)
flags_eq_lem [] (y ∷ ys) h = absurd cc
flags_eq_lem (x ∷ xs) [] h = absurd cc

merge_flags : (b c : List UserFlag) → or_keep (λ set stored. set) (changed flags_eq b c) b ≡ c
merge_flags b c = ground (arith, flags_eq_lem c b)

merge_expert : (b c : Bool) → or_keep (λ on stored. on) (changed bool_eq b c) b ≡ c
merge_expert b c = ground arith

merge_last_call :
    (b c : Option SystemTime)
    → IsNoEarlier b c
    → or_keep
        (λ at stored. some (map_or at (λ t. max t at) stored))
        (flatten (changed (option_eq ◌==◌) b c))
        b
      ≡ c
merge_last_call b c h = ground arith

merge_last_joined :
    (b c : Option MessageBaseRef)
    → IsStillThere b c
    → or_keep (λ joined stored. some joined) (flatten (changed (option_eq msgbase_ref_eq) b c)) b
      ≡ c
merge_last_joined b c h = ground arith

merge_memberships :
    (base cur : List ConferenceMembership)
    → HasGrownRows base cur
    → apply_all apply_membership (filter_map (membership_diff base) cur) base ≡ cur
merge_memberships base cur (distinct, growth) =
    diffs_lem conference_of (membership_diff base) apply_membership HasGrown IsNewMembership base
      cur distinct growth (membership_diff-PutsRow base)

-- A patch loses nothing: applied to the baseline that it was taken from, it gives the current state
-- of all the fields that a patch can carry and leaves the others, provided that the user has moved
-- on from the baseline the way sessions move it.
pub apply_to-between :
    (base cur : PersistedUser)
    → HasMovedOn base cur
    → apply_to (between base cur) base ≡ with_session_state cur base
unfolding apply_to between with_session_state
apply_to-between base cur moved =
    let (calls, calls_top) = moved.times_called in
    let (today, today_top) = moved.times_called_today in
    let (used, used_top) = moved.time_used_today in
    let (posts, posts_top) = moved.messages_posted in
    λ i. record base {
      times_called = merge_counter base.times_called cur.times_called u32_max calls calls_top i;
      times_called_today =
          merge_counter base.times_called_today cur.times_called_today u32_max today today_top i;
      time_used_today =
          merge_counter base.time_used_today cur.time_used_today duration_max used used_top i;
      messages_posted =
          merge_counter base.messages_posted cur.messages_posted u32_max posts posts_top i;
      last_call = merge_last_call base.last_call cur.last_call moved.last_call i;
      expert_mode = merge_expert base.expert_mode cur.expert_mode i;
      flags = merge_flags base.flags cur.flags i;
      last_joined = merge_last_joined base.last_joined cur.last_joined moved.last_joined i;
      memberships = merge_memberships base.memberships cur.memberships moved.memberships i;
    }

abbrev pub IsOneOf :
    Option SystemTime → Option SystemTime → Option SystemTime → Option SystemTime → Type 0
IsOneOf o a b c = (o ≡ a) ⊎ (o ≡ b) ⊎ (o ≡ c)

-- Two sessions of one user that are saved one after the other lose nothing of each other: the
-- stored counters grow by both deltas, up to the largest value of their type, and the stored last
-- call is the latest of the stored one and the two of the patches, one of the three and no earlier
-- than any; so the order of the two saves does not matter to them.
pub apply_to-apply_to :
    (one two : UserPatch) (stored : PersistedUser)
    → let both = apply_to two (apply_to one stored) in
      let swapped = apply_to one (apply_to two stored) in
      (both.times_called
        ≡ min (stored.times_called + one.times_called_delta + two.times_called_delta) u32_max)
      × (both.times_called_today
          ≡ min
              (stored.times_called_today + one.times_called_today_delta
                + two.times_called_today_delta)
              u32_max)
      × (both.time_used_today
          ≡ min
              (stored.time_used_today + one.time_used_today_delta + two.time_used_today_delta)
              duration_max)
      × (both.messages_posted
          ≡ min
              (stored.messages_posted + one.messages_posted_delta + two.messages_posted_delta)
              u32_max)
      × (both.last_call ≡ swapped.last_call)
      × IsNoEarlier stored.last_call both.last_call
      × IsNoEarlier one.last_call both.last_call
      × IsNoEarlier two.last_call both.last_call
      × IsOneOf both.last_call stored.last_call one.last_call two.last_call
unfolding apply_to
apply_to-apply_to one two stored = (
  omega arith,
  omega arith,
  omega arith,
  omega arith,
  ground arith,
  ground arith,
  ground arith,
  ground arith,
  ground arith,
)
