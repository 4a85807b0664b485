-- ===== src/Messaging/Moving.antt =====
-- rust/src/domain/messaging/move_mail.rs: moving a mail to another message base. `none` is the
-- panic of the `expect` on a source that is already deleted.
use nextexpress.Prelude.{ℕ, Bool, ◌||◌, not, Option, none, some, Result, ok, err, if◌then◌else◌}
use nextexpress.Conference.{msgbase_ref_eq}
use nextexpress.User.{User, Right, is_sysop, has_access}
use nextexpress.Messaging.{Mail, MailError, to_draft, carry_state_from, soft_delete}
use nextexpress.Messaging.Store.{MailStore, MailStoreError}

pub data MoveMailError : Type 0 where
  not_found : ℕ → MoveMailError
  not_permitted same_msgbase : MoveMailError
  store_rejects : MailStoreError → MoveMailError

unfoldable pub can_move : User → Bool
unfolding is_sysop has_access
can_move user = is_sysop user || has_access user Right.message_edit

-- The two stores are separate values: the code borrows both mutably, so they cannot be one.
module _ {S T : Type 0} (source : MailStore S) (target : MailStore T) where
  abbrev pub Moved : Type 0
  Moved = (S × T) × Result MoveMailError Mail

  abbrev pub finished : Mail → T → S × Result MailStoreError (Unit {0}) → Moved
  finished copy t (s, ok done) = ((s, t), ok copy)
  finished copy t (s, err e) = ((s, t), err (store_rejects e))

  abbrev pub drop_original :
      Mail → S → T → Option (Mail × Result MailError (Unit {0})) → Option Moved
  drop_original copy s t (some (original, ok done)) =
      some (finished copy t (source.save original s))
  drop_original copy s t (some (original, err e)) = none
  drop_original copy s t none = none

  abbrev pub copied : Mail → Mail → S → T × Result MailStoreError (Unit {0}) → Option Moved
  copied original copy s (t, err e) = some ((s, t), err (store_rejects e))
  copied original copy s (t, ok done) = drop_original copy s t (soft_delete original)

  abbrev pub inserted : Mail → S → T × Result MailStoreError Mail → Option Moved
  inserted original s (t, err e) = some ((s, t), err (store_rejects e))
  inserted original s (t, ok mail) =
      let copy = carry_state_from original mail in copied original copy s (target.save copy t)

  abbrev pub move_loaded : ℕ → S → T → Result MailStoreError (Option Mail) → Option Moved
  move_loaded number s t (err e) = some ((s, t), err (store_rejects e))
  move_loaded number s t (ok none) = some ((s, t), err (not_found number))
  move_loaded number s t (ok (some original)) =
      inserted original s (target.insert (to_draft original) t)

  unfoldable pub move_mail : User → ℕ → S → T → Option Moved
  unfolding can_move to_draft carry_state_from soft_delete
  move_mail user number s t =
      if not (can_move user)
      then some ((s, t), err not_permitted)
      else if msgbase_ref_eq (source.msgbase s) (target.msgbase t)
      then some ((s, t), err same_msgbase)
      else move_loaded number s t (source.load number s)
