-- ===== src/Joining/Walk.antt =====
-- The walk over the conferences of rust/src/domain/conference_visit.rs, which a scan takes.
use nextexpress.Prelude.{
  inl, inr, ap, [], ◌∷◌, Bool-cases, Every-map, ℕ, ◌≡◌, ◌<◌, true, false, Option, none, some, List,
  Memᴰ, arith, ltb, filter, find-passes, find-Memᴰ, Every, find-none-Every, filter-Memᴰ,
  Every-filter,
}
use nextexpress.Conference.{Conference}
use nextexpress.User.{User}
use nextexpress.Joining.{member_of, next_accessible_conference_after}

abbrev pub IsNext : User → List Conference → ℕ → Option Conference → Type 0
IsNext user conferences after none =
    Every (λ c. (ltb after c.number ≡ true) → member_of user c ≡ false) conferences
IsNext user conferences after (some conf) =
    (after < conf.number) × (member_of user conf ≡ true) × Memᴰ conf conferences

-- The next conference of a walk has a higher number, is in the catalogue and has the user as a
-- member; there is none only if the user is a member of no conference of a higher number.
pub next_accessible_conference_after_lem :
    (user : User) (conferences : List Conference) (after : ℕ) (o : Option Conference)
    → next_accessible_conference_after user conferences after ≡ o
    → IsNext user conferences after o
unfolding next_accessible_conference_after
next_accessible_conference_after_lem user conferences after none h =
    Every-filter (λ c. ltb after c.number) (λ c. member_of user c ≡ false) conferences
      (find-none-Every (member_of user) (filter (λ c. ltb after c.number) conferences) h)
next_accessible_conference_after_lem user conferences after (some conf) h =
    let (later, m) =
      filter-Memᴰ (λ c. ltb after c.number) conferences
        (find-Memᴰ (member_of user) (filter (λ c. ltb after c.number) conferences) h) in
    (
      ground (arith, later),
      find-passes (member_of user) (filter (λ c. ltb after c.number) conferences) h,
      m,
    )

-- A catalogue in strictly ascending order of its numbers.
abbrev pub Ascends : List Conference → Type 0
Ascends [] = Unit
Ascends (c ∷ cs) = Every (λ d. c.number < d.number) cs × Ascends cs

-- The user is a member of no conference between two numbers.
abbrev pub IsSkipped : User → ℕ → ℕ → Conference → Type 0
IsSkipped user after before c = (after < c.number) → (c.number < before) → member_of user c ≡ false

-- In an ascending catalogue the next conference of a walk is the nearest: the user is a member of
-- none between.
pub next_accessible_conference_after-IsSkipped :
    (user : User) (conferences : List Conference) (after : ℕ) (conf : Conference)
    → Ascends conferences
    → next_accessible_conference_after user conferences after ≡ some conf
    → Every (IsSkipped user after conf.number) conferences
unfolding next_accessible_conference_after
next_accessible_conference_after-IsSkipped user [] after conf v h = tt
next_accessible_conference_after-IsSkipped user (c ∷ cs) after conf v h =
    elim (Bool-cases (ltb after c.number)) [
      | inr low ↦ (
        (λ a b. absurd (ground (arith, low, a))),
        next_accessible_conference_after-IsSkipped user cs after conf v.1 (rw low at h),
      )
      | inl late ↦ elim (Bool-cases (member_of user c)) [
        | inr out ↦ (
          (λ a b. out),
          next_accessible_conference_after-IsSkipped user cs after conf v.1
              (rw out at (rw late at h)),
        )
        | inl in_it ↦
            let same : c ≡ conf = some_eq (rw in_it at (rw late at h)) in
            let number : c.number ≡ conf.number = ap (λ d. d.number) same in
            (
              (λ a b. absurd (omega (arith, number, b))),
              Every-map (λ d far a b. absurd (omega (arith, number, far, b))) cs v.0,
            )
      ]
    ]
  where
    some_eq : {a b : Conference} → some a ≡ some b → a ≡ b
    some_eq e = cc
