-- ===== src/Session/Activity.antt =====
-- The visits and the conference scan of a session: rust/src/domain/session/conference_activity.rs,
-- with `ConferenceVisit` and `ConferenceScan` of rust/src/domain/conference_visit.rs.
use nextexpress.Prelude.{ℕ, Bool, true, false, Option, none, some, List, [], ◌∷◌, ◌++◌, map, find}
use nextexpress.Time.{SystemTime}

pub record ConferenceVisit : Type 0 where
  pub conference_number : ℕ
  pub msgbase_number : ℕ
  pub joined_at : SystemTime
  pub left_at : Option SystemTime

unfoldable pub new_visit : ℕ → ℕ → SystemTime → ConferenceVisit
new_visit conference_number msgbase_number joined_at = record {
  conference_number = conference_number;
  msgbase_number = msgbase_number;
  joined_at = joined_at;
  left_at = none;
}

abbrev pub is_open : ConferenceVisit → Bool
is_open visit = elim visit.left_at [ none ↦ true | some at ↦ false ]

unfoldable pub close : SystemTime → ConferenceVisit → ConferenceVisit
close now visit = elim visit.left_at [
  | none ↦ record visit { left_at = some now }
  | some at ↦ visit
]

pub record ConferenceScan : Type 0 where
  pub next_conference_number : Option ℕ
  pub started_at : SystemTime

pub record ConferenceActivity : Type 0 where
  pub visits : List ConferenceVisit
  pub scan : Option ConferenceScan

unfoldable pub new : ConferenceActivity
new = record { visits = []; scan = none }

unfoldable pub current_visit : ConferenceActivity → Option ConferenceVisit
current_visit activity = find is_open activity.visits

unfoldable pub is_scanning : ConferenceActivity → Bool
is_scanning activity = elim activity.scan [ none ↦ false | some s ↦ true ]

unfoldable pub attach : ℕ → ℕ → SystemTime → ConferenceActivity → ConferenceActivity
unfolding close new_visit
attach conference_number msgbase_number now activity = record activity {
  visits = map (close now) activity.visits ++ new_visit conference_number msgbase_number now ∷ [];
}

unfoldable pub set_scan : Option ConferenceScan → ConferenceActivity → ConferenceActivity
set_scan scan activity = record activity { scan = scan }
