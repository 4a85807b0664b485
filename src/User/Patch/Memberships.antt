-- ===== src/User/Patch/Memberships.antt =====
-- The membership patches of rust/src/domain/user/commands.rs, applied to the rows that they were
-- taken from.
use nextexpress.Prelude.{
  ℕ, ◌-◌, ◌≤◌, ◌≡◌, refl, ap, ◌∙◌, inl, inr, Bool, true, false, none, some, List, [], ◌∷◌, ◌++◌,
  map, arith, find, find-passes, sym, u32_max, Every, Option-cases, if◌then◌else◌,
}
use nextexpress.Prelude.Keyed.{
  HasDistinctKeys, IsGrowth, Fits, PutsRow, put, put_same, append-put, update_first-put, apply_diff,
  apply_all,
}
use nextexpress.Conference.Membership.{
  ConferenceMembership, set_granted, set_scan_flags, add_messages_posted,
}
use nextexpress.Conference.Membership
use nextexpress.User.Access.{of_conference}
use nextexpress.User.Patch.{
  MembershipPatch, changed, bool_eq, settings_eq, scan_flag_settings, pointer_patch,
  pointer_patches, membership_patch_between, is_empty_patch, membership_diff, apply_to_row,
  apply_pointer, apply_membership, or_keep,
}
use nextexpress.User.Patch.Rows.{
  base_of, HasAdvanced, IsNewRow, pointer_patches_lem, new_pointers_lem,
}

abbrev pub conference_of : ConferenceMembership → ℕ
conference_of m = m.conference_number

-- What a session makes of a membership row that was there: the count of posts only grows, within
-- 32 bits, and the pointer rows grow.
abbrev pub HasGrown : ConferenceMembership → ConferenceMembership → Type 0
HasGrown b c =
    b.messages_posted ≤ c.messages_posted
    × c.messages_posted ≤ u32_max
    × HasDistinctKeys base_of c.pointers
    × IsGrowth base_of HasAdvanced IsNewRow b.pointers c.pointers

abbrev pub IsNewMembership : ConferenceMembership → Type 0
IsNewMembership c =
    c.messages_posted ≤ u32_max × HasDistinctKeys base_of c.pointers × Every IsNewRow c.pointers

abbrev patch_of : ConferenceMembership → ConferenceMembership → MembershipPatch
unfolding scan_flag_settings
patch_of base cur = record {
  conference_number = cur.conference_number;
  create_if_missing = false;
  granted = changed bool_eq base.granted cur.granted;
  messages_posted_delta = cur.messages_posted - base.messages_posted;
  scan_flags = changed settings_eq (scan_flag_settings base) (scan_flag_settings cur);
  pointers = pointer_patches base.pointers cur.pointers;
}

-- The patch without the pointers.
abbrev scalars : MembershipPatch → ConferenceMembership → ConferenceMembership
unfolding set_granted set_scan_flags add_messages_posted
scalars patch m =
    add_messages_posted patch.messages_posted_delta
      (or_keep set_scan_flags patch.scan_flags (or_keep set_granted patch.granted m))

changed_bool :
    (a b : Bool) (m : ConferenceMembership)
    → m.granted ≡ a
    → or_keep set_granted (changed bool_eq a b) m ≡ record m { granted = b }
unfolding set_granted
changed_bool a b m h = ground arith

changed_settings :
    (b c m : ConferenceMembership)
    → m.mail_scan ≡ b.mail_scan
    → m.mailscan_all ≡ b.mailscan_all
    → m.file_scan ≡ b.file_scan
    → m.zoom_scan ≡ b.zoom_scan
    → or_keep set_scan_flags (changed settings_eq (scan_flag_settings b) (scan_flag_settings c)) m
      ≡ record m {
        mail_scan = c.mail_scan;
        mailscan_all = c.mailscan_all;
        file_scan = c.file_scan;
        zoom_scan = c.zoom_scan;
      }
unfolding set_scan_flags scan_flag_settings
changed_settings b c m h1 h2 h3 h4 = ground arith

add_posts :
    (b m : ConferenceMembership) (posted : ℕ)
    → m.messages_posted ≡ b.messages_posted
    → b.messages_posted ≤ posted
    → posted ≤ u32_max
    → add_messages_posted (posted - b.messages_posted) m ≡ record m { messages_posted = posted }
unfolding add_messages_posted
add_posts b m posted same le top = ground arith

scalars_lem :
    (b c : ConferenceMembership)
    → b.conference_number ≡ c.conference_number
    → b.messages_posted ≤ c.messages_posted
    → c.messages_posted ≤ u32_max
    → scalars (patch_of b c) b ≡ record c { pointers = b.pointers }
unfolding scalars patch_of
scalars_lem b c same le top =
    ap
      (λ m. add_messages_posted (c.messages_posted - b.messages_posted) (
        or_keep set_scan_flags (changed settings_eq (scan_flag_settings b) (scan_flag_settings c))
          m))
      (changed_bool b.granted c.granted b refl)
    ∙ ap (add_messages_posted (c.messages_posted - b.messages_posted))
        (changed_settings b c (record b { granted = c.granted }) refl refl refl refl)
    ∙ add_posts b
        (record b {
          granted = c.granted;
          mail_scan = c.mail_scan;
          mailscan_all = c.mailscan_all;
          file_scan = c.file_scan;
          zoom_scan = c.zoom_scan;
        })
        c.messages_posted refl le top
    ∙ ap (λ n. record c { conference_number = n; pointers = b.pointers }) same

apply_to_row-scalars :
    (patch : MembershipPatch) (m : ConferenceMembership)
    → apply_to_row patch m ≡ apply_all apply_pointer patch.pointers (scalars patch m)
unfolding apply_to_row scalars
apply_to_row-scalars patch m = refl

grown_row :
    (b c : ConferenceMembership)
    → b.conference_number ≡ c.conference_number
    → HasGrown b c
    → apply_to_row (patch_of b c) b ≡ c
unfolding patch_of
grown_row b c same (le, top, distinct, growth) =
    apply_to_row-scalars (patch_of b c) b
    ∙ ap (apply_all apply_pointer (pointer_patches b.pointers c.pointers))
        (scalars_lem b c same le top)
    ∙ pointer_patches_lem (record c { pointers = b.pointers }) c.pointers distinct growth

empty_row :
    (patch : MembershipPatch) (m : ConferenceMembership)
    → is_empty_patch patch ≡ true
    → m.messages_posted ≤ u32_max
    → apply_to_row patch m ≡ m
unfolding apply_to_row set_granted set_scan_flags add_messages_posted
empty_row patch m h top = ground arith

abbrev creation : ConferenceMembership → MembershipPatch
unfolding scan_flag_settings pointer_patch
creation cur = record {
  conference_number = cur.conference_number;
  create_if_missing = true;
  granted = some cur.granted;
  messages_posted_delta = cur.messages_posted;
  scan_flags = some (scan_flag_settings cur);
  pointers = map pointer_patch cur.pointers;
}

scalars-creation :
    (c : ConferenceMembership)
    → c.messages_posted ≤ u32_max
    → scalars (creation c) (Membership.new c.conference_number c.granted)
      ≡ record c { pointers = [] }
unfolding creation scalars set_granted set_scan_flags add_messages_posted Membership.new
    scan_flag_settings
scalars-creation c top = ground arith

created_row :
    (c : ConferenceMembership)
    → IsNewMembership c
    → apply_to_row (creation c) (Membership.new c.conference_number c.granted) ≡ c
unfolding creation
created_row c (top, distinct, new) =
    apply_to_row-scalars (creation c) (Membership.new c.conference_number c.granted)
    ∙ ap (apply_all apply_pointer (map pointer_patch c.pointers)) (scalars-creation c top)
    ∙ new_pointers_lem (record c { pointers = [] }) c.pointers refl distinct new

create_membership :
    (c : ConferenceMembership) (xs : List ConferenceMembership)
    → IsNewMembership c
    → find (of_conference c.conference_number) xs ≡ none
    → apply_membership (creation c) xs ≡ put conference_of c xs
unfolding apply_membership creation
create_membership c xs new missing =
    rw (missing, apply_membership)
      (ap (λ m. xs ++ m ∷ []) (created_row c new) ∙ append-put conference_of c xs missing)

write_membership :
    (b c : ConferenceMembership) (xs : List ConferenceMembership)
    → HasGrown b c
    → b.conference_number ≡ c.conference_number
    → find (of_conference c.conference_number) xs ≡ some b
    → apply_membership (patch_of b c) xs ≡ put conference_of c xs
unfolding apply_membership patch_of
write_membership b c xs grown same there =
    rw (there, apply_membership)
      (update_first-put conference_of c (apply_to_row (patch_of b c)) b xs there
        (grown_row b c same grown))

put_membership :
    (base : List ConferenceMembership) (b c : ConferenceMembership) (xs : List ConferenceMembership)
    (test : Bool)
    → HasGrown b c
    → b.conference_number ≡ c.conference_number
    → is_empty_patch (patch_of b c) ≡ test
    → find (of_conference c.conference_number) xs ≡ some b
    → apply_diff conference_of
        (membership_diff base)
        apply_membership
        (if test then none else some (patch_of b c))
        xs
      ≡ put conference_of c xs
put_membership base b c xs false grown same e there = write_membership b c xs grown same there
put_membership base b c xs true grown same e there = put_same conference_of c xs (
    there
    ∙ ap some (
        sym (empty_row (patch_of b c) b e (omega (arith, grown.0, grown.1)))
        ∙ grown_row b c same grown))

diff_missing :
    (base : List ConferenceMembership) (c : ConferenceMembership)
    → find (of_conference c.conference_number) base ≡ none
    → membership_diff base c ≡ some (creation c)
unfolding membership_diff membership_patch_between creation
diff_missing base c e = rw e refl

diff_there :
    (base : List ConferenceMembership) (b c : ConferenceMembership)
    → find (of_conference c.conference_number) base ≡ some b
    → membership_diff base c ≡ (if is_empty_patch (patch_of b c) then none else some (patch_of b c))
unfolding membership_diff membership_patch_between patch_of
diff_there base b c e = rw e refl

pub membership_diff-PutsRow :
    (base : List ConferenceMembership) (c : ConferenceMembership)
    → Fits conference_of HasGrown IsNewMembership (find (of_conference c.conference_number) base) c
    → PutsRow conference_of (membership_diff base) apply_membership base c
membership_diff-PutsRow base c fit xs same =
    elim (Option-cases (find (of_conference c.conference_number) base)) [
      | inl e ↦ rw (diff_missing base c e) (create_membership c xs (rw e at fit) (same ∙ e))
      | inr (b, e) ↦ rw (diff_there base b c e) (
          put_membership base b c xs (is_empty_patch (patch_of b c)) (rw e at fit)
            (ground (arith, find-passes (of_conference c.conference_number) base e)) refl
            (same ∙ e))
    ]
