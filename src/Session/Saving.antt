-- ===== src/Session/Saving.antt =====
-- The pending patch of a session, of rust/src/domain/session/mod.rs.
use nextexpress.Prelude.{ℕ, arith, ◌≡◌, ap, ◌∙◌, some, Option, refl}
use nextexpress.User.{User}
use nextexpress.User.Persisted.{PersistedUser, to_persisted}
use nextexpress.User.Patch.{UserPatch, between}
use nextexpress.User.Patch.Unchanged.{HasDistinctRows, nothing_changed, between_same}
use nextexpress.Session.{Session, user, rebaseline_persisted}
use nextexpress.Session.Commands.{pending_user_patch}

-- What is pending for a bound user with a baseline.
pending_user_patch_lem :
    (s : Session) (bound : User) (baseline : PersistedUser)
    → user s ≡ some bound
    → s.persist_baseline ≡ some baseline
    → pending_user_patch s ≡ some (bound.slot_number, between baseline (to_persisted bound))
unfolding pending_user_patch
pending_user_patch_lem s bound baseline h b = ground (arith, h, b)

rebaseline_persisted_lem :
    (s : Session) (bound : User)
    → user s ≡ some bound
    → (rebaseline_persisted s).persist_baseline ≡ some (to_persisted bound)
unfolding rebaseline_persisted
rebaseline_persisted_lem s bound h = ground (arith, h)

user-rebaseline_persisted : (s : Session) → user (rebaseline_persisted s) ≡ user s
unfolding rebaseline_persisted
user-rebaseline_persisted s = refl

abbrev with_slot : ℕ → UserPatch → Option (ℕ × UserPatch)
with_slot slot patch = some (slot, patch)

-- A session that has just been saved has nothing to save: its pending patch carries no change,
-- provided that the user's membership and pointer rows are of different conferences and bases.
pub pending_user_patch-rebaseline_persisted :
    (s : Session) {bound : User}
    → user s ≡ some bound
    → HasDistinctRows bound.conferences.memberships
    → pending_user_patch (rebaseline_persisted s) ≡ some (bound.slot_number, nothing_changed)
pending_user_patch-rebaseline_persisted s {bound = bound} h rows =
    pending_user_patch_lem (rebaseline_persisted s) bound (to_persisted bound)
      (user-rebaseline_persisted s ∙ h) (rebaseline_persisted_lem s bound h)
    ∙ ap (with_slot bound.slot_number) (between_same (to_persisted bound) rows_stored)
  where
    rows_stored : HasDistinctRows (to_persisted bound).memberships
    rows_stored = unfold to_persisted in rows
