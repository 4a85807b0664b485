-- ===== src/Joining/Resolution.antt =====
-- What rust/src/domain/conference_visit.rs resolves a join to.
use nextexpress.Prelude.{
  ℕ, ◌≡◌, refl, inl, inr, true, false, Option, none, some, List, [], ◌∷◌, Memᴰ, arith, Bool-cases,
  Option-cases, find, find-passes, find-Memᴰ, Every, Every-Memᴰ, Every-map, Every-all,
  find-none-Every,
}
use mathlib.Core.List.Memᴰ.{head}
use nextexpress.Conference.{
  first_of, Conference, MessageBase, MessageBaseRef, IsConference, find_msgbase, primary_msgbase,
  primary_msgbase_total, has_number,
}
use nextexpress.Conference.Membership.{
  ConferenceMembership, has_membership, first_accessible_conference,
}
use nextexpress.User.{User}
use nextexpress.Joining.{
  JoinResolution, ExplicitJoinResolution, member_of, numbered, preferred, resolve_auto_rejoin,
  resolve_explicit_join, if_member, or_else, resolve_to, grant_to, requested_base,
}

-- Where a user may be put: in a conference of the catalogue, as a member, in one of its bases.
abbrev pub MayEnter : User → List Conference → Conference → MessageBase → Type 0
MayEnter user conferences conf base =
    Memᴰ conf conferences × (member_of user conf ≡ true) × Memᴰ base conf.msgbases

primary_msgbase-Memᴰ :
    (conf : Conference)
    → IsConference conf
    → (base : MessageBase) × (primary_msgbase conf ≡ some base) × Memᴰ base conf.msgbases
unfolding primary_msgbase
primary_msgbase-Memᴰ conf v =
    let (base, e) = primary_msgbase_total conf v in (base, e, found base e)
  where
    in_first :
        (bases : List MessageBase) {base : MessageBase}
        → first_of bases ≡ some base
        → Memᴰ base bases
    in_first [] h = absurd cc
    in_first (b ∷ bases) h = head (ground arith)

    found : (base : MessageBase) → primary_msgbase conf ≡ some base → Memᴰ base conf.msgbases
    found base e = elim (Option-cases (find (has_number 1) conf.msgbases)) [
      | inl none_found ↦ in_first conf.msgbases (ground (arith, none_found, e))
      | inr (b, f) ↦ find-Memᴰ (has_number 1) conf.msgbases (ground (arith, f, e))
    ]

if_member-cases :
    (user : User) (o : Option Conference) {conf : Conference}
    → if_member user o ≡ some conf
    → (member_of user conf ≡ true) × (o ≡ some conf)
unfolding has_membership
if_member-cases user o h = ground arith

preferred-Memᴰ :
    (user : User) (conferences : List Conference) (conf : Conference)
    → preferred user conferences ≡ some conf
    → (member_of user conf ≡ true) × Memᴰ conf conferences
unfolding preferred
preferred-Memᴰ user conferences conf h = at user.conferences.last_joined h
  where
    at :
        (o : Option MessageBaseRef)
        → (elim o [
          | none ↦ none
          | some last ↦ if_member user (find (numbered last.conference_number) conferences)
        ])
          ≡ some conf
        → (member_of user conf ≡ true) × Memᴰ conf conferences
    at none h = absurd cc
    at (some last) h =
        let (m, e) = if_member-cases user (find (numbered last.conference_number) conferences) h in
        (m, find-Memᴰ (numbered last.conference_number) conferences e)

-- The user's last joined conference, where it can still be entered, is the one.
abbrev pub PrefersLast : User → List Conference → Conference → Type 0
PrefersLast user conferences conf =
    (last : MessageBaseRef) (c : Conference)
    → user.conferences.last_joined ≡ some last
    → find (numbered last.conference_number) conferences ≡ some c
    → member_of user c ≡ true
    → conf ≡ c

abbrev pub IsRejoin : User → List Conference → JoinResolution → Type 0
IsRejoin user conferences JoinResolution.no_access =
    Every (λ c. member_of user c ≡ false) conferences
IsRejoin user conferences (JoinResolution.resolved conf base) =
    MayEnter user conferences conf base × PrefersLast user conferences conf

abbrev IsChoice : User → List Conference → Option Conference → Type 0
IsChoice user conferences none = Every (λ c. member_of user c ≡ false) conferences
IsChoice user conferences (some conf) =
    (member_of user conf ≡ true) × Memᴰ conf conferences × PrefersLast user conferences conf

or_else-IsChoice :
    (user : User) (conferences : List Conference) (o p : Option Conference)
    → preferred user conferences ≡ o
    → first_accessible_conference user.conferences.memberships conferences ≡ p
    → IsChoice user conferences (or_else o p)
unfolding preferred first_accessible_conference
or_else-IsChoice user conferences (some conf) p e f =
    let (m, n) = preferred-Memᴰ user conferences conf e in
    (m, n, λ last c h h' h''. ground (arith, e, h, h', h''))
or_else-IsChoice user conferences none (some conf) e f = (
  find-passes (has_membership user.conferences.memberships) conferences f,
  find-Memᴰ (has_membership user.conferences.memberships) conferences f,
  λ last c h h' h''. ground (arith, e, h, h', h''),
)
or_else-IsChoice user conferences none none e f =
    find-none-Every (has_membership user.conferences.memberships) conferences f

resolve_to-IsRejoin :
    (user : User) (conferences : List Conference) (o : Option Conference)
    → Every IsConference conferences
    → IsChoice user conferences o
    → (r : JoinResolution) × (resolve_to o ≡ some r) × IsRejoin user conferences r
resolve_to-IsRejoin user conferences none v g = (JoinResolution.no_access, refl, g)
resolve_to-IsRejoin user conferences (some conf) v (m, n, last) =
    let (base, e, b) = primary_msgbase-Memᴰ conf (Every-Memᴰ IsConference conferences v n) in
    (JoinResolution.resolved conf base, ground (arith, e), ((n, m, b), last))

-- With a catalogue of proper conferences the resolution of an automatic rejoin always returns. It
-- refuses only if the user is a member of no conference, and otherwise puts the user in a
-- conference of the catalogue, as a member, in one of its message bases: the last joined
-- conference, if the catalogue still has it and the user is still a member.
pub resolve_auto_rejoin_lem :
    (user : User) (conferences : List Conference)
    → Every IsConference conferences
    → (r : JoinResolution) × (resolve_auto_rejoin user conferences ≡ some r)
      × IsRejoin user conferences r
unfolding resolve_auto_rejoin
resolve_auto_rejoin_lem user conferences v =
    resolve_to-IsRejoin user conferences
      (or_else (preferred user conferences)
        (first_accessible_conference user.conferences.memberships conferences))
      v
      (or_else-IsChoice user conferences (preferred user conferences)
        (first_accessible_conference user.conferences.memberships conferences) refl refl)

abbrev pub IsExplicit : ℕ → Option ℕ → User → List Conference → ExplicitJoinResolution → Type 0
IsExplicit target requested user conferences ExplicitJoinResolution.denied =
    Every (λ c. (c.number ≡ target) → member_of user c ≡ false) conferences
IsExplicit target requested user conferences (ExplicitJoinResolution.granted conf base) =
    (conf.number ≡ target)
    × MayEnter user conferences conf base
    × ((n : ℕ) (b : MessageBase) → requested ≡ some n → find_msgbase conf n ≡ some b → base ≡ b)

requested_base-Memᴰ :
    (requested : Option ℕ) (conf : Conference) {base : MessageBase}
    → requested_base requested conf ≡ some base
    → Memᴰ base conf.msgbases
unfolding find_msgbase
requested_base-Memᴰ none conf h = absurd cc
requested_base-Memᴰ (some n) conf h = find-Memᴰ (has_number n) conf.msgbases h

-- Membership is by number.
has_membership_congr :
    (rows : List ConferenceMembership) (a b : Conference)
    → a.number ≡ b.number
    → has_membership rows a ≡ has_membership rows b
unfolding has_membership
has_membership_congr [] a b h = refl
has_membership_congr (row ∷ rows) a b h = ground (arith, has_membership_congr rows a b h)

grant_to-IsExplicit :
    (target : ℕ) (requested : Option ℕ) (user : User) (conferences : List Conference)
    (conf : Conference)
    → Every IsConference conferences
    → conf.number ≡ target
    → member_of user conf ≡ true
    → Memᴰ conf conferences
    → (r : ExplicitJoinResolution) × (grant_to requested (some conf) ≡ some r)
      × IsExplicit target requested user conferences r
grant_to-IsExplicit target requested user conferences conf v e m n =
    elim (Option-cases (requested_base requested conf)) [
      | inl default ↦
          let (base, f, b) = primary_msgbase-Memᴰ conf (Every-Memᴰ IsConference conferences v n) in
          (
            ExplicitJoinResolution.granted conf base,
            ground (arith, default, f),
            (e, (n, m, b), λ k base' h h'. ground (arith, default, h, h')),
          )
      | inr (base, f) ↦ (
        ExplicitJoinResolution.granted conf base,
        ground (arith, f),
        (e, (n, m, requested_base-Memᴰ requested conf f), λ k base' h h'. ground (arith, f, h, h')),
      )
    ]

-- With a catalogue of proper conferences the resolution of a join by number always returns. It
-- denies only if the user is a member of no conference of that number, and otherwise puts the user
-- in a conference of that number, as a member, in one of its message bases: the requested one, if
-- the conference has it.
pub resolve_explicit_join_lem :
    (target : ℕ) (requested : Option ℕ) (user : User) (conferences : List Conference)
    → Every IsConference conferences
    → (r : ExplicitJoinResolution) × (resolve_explicit_join target requested user conferences
        ≡ some r)
      × IsExplicit target requested user conferences r
unfolding resolve_explicit_join
resolve_explicit_join_lem target requested user conferences v =
    elim (Option-cases (find (numbered target) conferences)) [
      | inl absent ↦ (
        ExplicitJoinResolution.denied,
        ground (arith, absent),
        Every-map (λ c h e. absurd (ground (arith, h, e))) conferences
            (find-none-Every (numbered target) conferences absent),
      )
      | inr (conf, f) ↦ elim (Bool-cases (member_of user conf)) [
        | inl m ↦
            let (r, e, g) =
              grant_to-IsExplicit target requested user conferences conf v
                (numbered-number target conf (find-passes (numbered target) conferences f)) m
                (find-Memᴰ (numbered target) conferences f) in
            (r, ground (arith, f, m, e), g)
        | inr out ↦ (
          ExplicitJoinResolution.denied,
          ground (arith, f, out),
          Every-all
              (λ c e. ground (
                arith,
                out,
                has_membership_congr user.conferences.memberships c conf (
                    ground (
                      arith,
                      e,
                      numbered-number target conf (find-passes (numbered target) conferences f),
                    )),
              ))
              conferences,
        )
      ]
    ]
  where
    numbered-number : (n : ℕ) (c : Conference) → numbered n c ≡ true → c.number ≡ n
    numbered-number n c h = ground arith
