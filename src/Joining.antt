-- ===== src/Joining.antt =====
-- rust/src/domain/conference_visit.rs: which conference and base a join resolves to. The `expect`
-- inside `primary_msgbase` makes the results an `Option`, and `none` is its panic.
pub mod Resolution
pub mod Walk
use mathlib.Core.List.{reverse}
use nextexpress.Prelude.{
  ℕ, Bool, true, false, Option, none, some, List, [], ◌∷◌, ◌>>=◌, ◌==◌, ltb, find, filter,
  if◌then◌else◌,
}
use nextexpress.Conference.{Conference, MessageBase, MessageBaseRef, find_msgbase, primary_msgbase}
use nextexpress.Conference.Membership.{has_membership, first_accessible_conference}
use nextexpress.User.{User}

abbrev pub member_of : User → Conference → Bool
member_of user conf = has_membership user.conferences.memberships conf

abbrev pub numbered : ℕ → Conference → Bool
numbered n conf = conf.number == n

unfoldable pub next_accessible_conference_after : User → List Conference → ℕ → Option Conference
unfolding has_membership
next_accessible_conference_after user conferences after_number =
    find (member_of user) (filter (λ c. ltb after_number c.number) conferences)

unfoldable pub prev_accessible_conference_before : User → List Conference → ℕ → Option Conference
unfolding has_membership
prev_accessible_conference_before user conferences before_number =
    find (member_of user) (filter (λ c. ltb c.number before_number) (reverse conferences))

pub data JoinResolution : Type 0 where
  resolved : Conference → MessageBase → JoinResolution
  no_access : JoinResolution

pub data ExplicitJoinResolution : Type 0 where
  granted : Conference → MessageBase → ExplicitJoinResolution
  denied : ExplicitJoinResolution

-- `option.filter(|c| user.has_membership(c))`
abbrev pub if_member : User → Option Conference → Option Conference
if_member user none = none
if_member user (some conf) = if member_of user conf then some conf else none

abbrev pub or_else {ℓ} : {A : Type ℓ} → Option A → Option A → Option A
or_else none other = other
or_else (some a) other = some a

unfoldable pub preferred : User → List Conference → Option Conference
unfolding has_membership
preferred user conferences = elim user.conferences.last_joined [
  | none ↦ none
  | some last ↦ if_member user (find (numbered last.conference_number) conferences)
]

abbrev pub resolve_to : Option Conference → Option JoinResolution
resolve_to none = some no_access
resolve_to (some conf) = do base ← primary_msgbase conf; some (resolved conf base)

unfoldable pub resolve_auto_rejoin : User → List Conference → Option JoinResolution
unfolding preferred first_accessible_conference primary_msgbase
resolve_auto_rejoin user conferences = resolve_to (
    or_else (preferred user conferences)
      (first_accessible_conference user.conferences.memberships conferences))

abbrev pub requested_base : Option ℕ → Conference → Option MessageBase
requested_base none conf = none
requested_base (some n) conf = find_msgbase conf n

abbrev pub grant_to : Option ℕ → Option Conference → Option ExplicitJoinResolution
grant_to requested none = some denied
grant_to requested (some conf) = elim (requested_base requested conf) [
  | some base ↦ some (granted conf base)
  | none ↦ do base ← primary_msgbase conf; some (granted conf base)
]

unfoldable pub resolve_explicit_join :
    ℕ → Option ℕ → User → List Conference → Option ExplicitJoinResolution
unfolding has_membership find_msgbase primary_msgbase
resolve_explicit_join target requested user conferences =
    grant_to requested (if_member user (find (numbered target) conferences))
