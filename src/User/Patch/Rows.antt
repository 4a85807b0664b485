-- ===== src/User/Patch/Rows.antt =====
-- The rows of a patch of rust/src/domain/user/commands.rs, applied to the rows that it was taken
-- from.
use nextexpress.Prelude.{
  ℕ, ◌≤◌, ◌≡◌, refl, ap, ◌∙◌, inl, inr, Bool, true, false, Option, none, some, List, [], ◌∷◌, map,
  arith, find, find-passes, sym, update_first, Every, Option-cases, if◌then◌else◌,
}
use nextexpress.Prelude.Keyed.{
  HasDistinctKeys, IsGrowth, Fits, PutsRow, put, put_same, update_first-put, filter_map, apply_diff,
  filter_map-filter, apply_all, diffs_lem,
}
use nextexpress.ReadPointers.{ReadPointers, fresh, advance_last_read, advance_last_scanned}
use nextexpress.Conference.Membership.{
  ConferenceMembership, of_base, pointers_for, upsert, upsert_pointers, update_pointers,
}
use nextexpress.User.Patch.{
  PointerPatch, pointer_patch, has_advanced, row_of, pointer_patches, apply_pointer,
}

abbrev pub base_of : ReadPointers → ℕ
base_of row = row.msgbase_number

-- What a session makes of a row that was there: the numbers only grow and keep their order, and the
-- time of its creation stays.
abbrev pub HasAdvanced : ReadPointers → ReadPointers → Type 0
HasAdvanced b p =
    (b.new_since ≡ p.new_since)
    × b.last_read ≤ p.last_read
    × b.last_scanned ≤ p.last_scanned
    × p.last_read ≤ p.last_scanned

abbrev pub IsNewRow : ReadPointers → Type 0
IsNewRow p = p.last_read ≤ p.last_scanned

abbrev advance_to : PointerPatch → ReadPointers → ReadPointers
unfolding advance_last_read advance_last_scanned
advance_to patch row =
    advance_last_scanned patch.last_scanned (advance_last_read patch.last_read row)

abbrev create : PointerPatch → Option ReadPointers → List ReadPointers → List ReadPointers
unfolding fresh
create patch none rows = upsert (fresh patch.msgbase_number patch.new_since) rows
create patch (some row) rows = rows

abbrev apply_row : PointerPatch → List ReadPointers → List ReadPointers
unfolding advance_last_read advance_last_scanned fresh
apply_row patch rows =
    update_first (of_base patch.msgbase_number) (advance_to patch)
      (create patch (find (of_base patch.msgbase_number) rows) rows)

apply_pointer_lem :
    (patch : PointerPatch) (m : ConferenceMembership)
    → apply_pointer patch m ≡ record m { pointers = apply_row patch m.pointers }
unfolding apply_pointer pointers_for upsert_pointers update_pointers
apply_pointer_lem patch m = created (find (of_base patch.msgbase_number) m.pointers)
  where
    created :
        (o : Option ReadPointers)
        → update_pointers patch.msgbase_number (advance_to patch) (elim o [
          | none ↦ upsert_pointers (fresh patch.msgbase_number patch.new_since) m
          | some row ↦ m
        ])
          ≡ record m {
            pointers =
                update_first
                  (of_base patch.msgbase_number)
                  (advance_to patch)
                  (create patch o m.pointers);
          }
    created none = refl
    created (some row) = refl

apply_pointers_lem :
    (patches : List PointerPatch) (m : ConferenceMembership)
    → apply_all apply_pointer patches m
      ≡ record m { pointers = apply_all apply_row patches m.pointers }
apply_pointers_lem [] m = refl
apply_pointers_lem (p ∷ ps) m =
    ap (apply_all apply_pointer ps) (apply_pointer_lem p m)
    ∙ apply_pointers_lem ps (record m { pointers = apply_row p m.pointers })

update_first-upsert :
    (f : ReadPointers → ReadPointers) (r p : ReadPointers) (xs : List ReadPointers)
    → find (of_base p.msgbase_number) xs ≡ none
    → r.msgbase_number ≡ p.msgbase_number
    → f r ≡ p
    → update_first (of_base p.msgbase_number) f (upsert r xs) ≡ put base_of p xs
update_first-upsert f r p [] h same e = ground arith
update_first-upsert f r p (x ∷ xs) h same e = ground (arith, update_first-upsert f r p xs)

abbrev row_diff : List ReadPointers → ReadPointers → Option PointerPatch
unfolding pointer_patch
row_diff base p = if has_advanced (row_of base p) p then some (pointer_patch p) else none

create_row :
    (p : ReadPointers) (xs : List ReadPointers)
    → IsNewRow p
    → find (of_base p.msgbase_number) xs ≡ none
    → apply_row (pointer_patch p) xs ≡ put base_of p xs
unfolding pointer_patch apply_row
create_row p xs new missing = rw missing (
    update_first-upsert (advance_to (pointer_patch p)) (fresh p.msgbase_number p.new_since) p xs
      missing refl (ground arith))

row_diff_missing :
    (base : List ReadPointers) (p : ReadPointers)
    → row_of base p ≡ none
    → row_diff base p ≡ some (pointer_patch p)
unfolding row_diff pointer_patch
row_diff_missing base p e = rw e refl

row_diff_there :
    (base : List ReadPointers) (p b : ReadPointers)
    → row_of base p ≡ some b
    → row_diff base p ≡ (if has_advanced (some b) p then some (pointer_patch p) else none)
unfolding row_diff pointer_patch
row_diff_there base p b e = rw e refl

write_row :
    (b p : ReadPointers) (xs : List ReadPointers)
    → find (of_base p.msgbase_number) xs ≡ some b
    → advance_to (pointer_patch p) b ≡ p
    → apply_row (pointer_patch p) xs ≡ put base_of p xs
unfolding pointer_patch create apply_row
write_row b p xs there e =
    ap (update_first (of_base p.msgbase_number) (advance_to (pointer_patch p)))
      (ap (λ o. create (pointer_patch p) o xs) there)
    ∙ update_first-put base_of p (advance_to (pointer_patch p)) b xs there e

unchanged_row :
    (b p : ReadPointers)
    → HasAdvanced b p
    → b.msgbase_number ≡ p.msgbase_number
    → has_advanced (some b) p ≡ false
    → b ≡ p
unchanged_row b p grown same stays = ground arith

advanced_row :
    (b p : ReadPointers)
    → HasAdvanced b p
    → b.msgbase_number ≡ p.msgbase_number
    → advance_to (pointer_patch p) b ≡ p
unfolding pointer_patch advance_last_read advance_last_scanned
advanced_row b p grown same = ground arith

put_row :
    (b p : ReadPointers) (xs : List ReadPointers) (test : Bool)
    → HasAdvanced b p
    → b.msgbase_number ≡ p.msgbase_number
    → has_advanced (some b) p ≡ test
    → find (of_base p.msgbase_number) xs ≡ some b
    → apply_diff base_of (row_diff []) apply_row (if test then some (pointer_patch p) else none) xs
      ≡ put base_of p xs
put_row b p xs true grown same e there = write_row b p xs there (advanced_row b p grown same)
put_row b p xs false grown same e there =
    put_same base_of p xs (there ∙ ap some (unchanged_row b p grown same e))

row_diff-PutsRow :
    (base : List ReadPointers) (p : ReadPointers)
    → Fits base_of HasAdvanced IsNewRow (find (of_base p.msgbase_number) base) p
    → PutsRow base_of (row_diff base) apply_row base p
row_diff-PutsRow base p fit xs same = elim (Option-cases (row_of base p)) [
  | inl e ↦ rw (row_diff_missing base p e) (create_row p xs (rw e at fit) (same ∙ e))
  | inr (b, e) ↦ rw (row_diff_there base p b e) (
      put_row b p xs (has_advanced (some b) p) (rw e at fit)
        (ground (arith, find-passes (of_base p.msgbase_number) base e)) refl (same ∙ e))
]

-- The patches of the pointer rows, applied to the rows that a membership had, give the rows that
-- it has.
pub pointer_patches_lem :
    (m : ConferenceMembership) (cur : List ReadPointers)
    → HasDistinctKeys base_of cur
    → IsGrowth base_of HasAdvanced IsNewRow m.pointers cur
    → apply_all apply_pointer (pointer_patches m.pointers cur) m ≡ record m { pointers = cur }
unfolding row_diff
pointer_patches_lem m cur d g =
    apply_pointers_lem (pointer_patches m.pointers cur) m
    ∙ ap (λ ps. record m { pointers = apply_all apply_row ps m.pointers })
        (sym (filter_map-filter (λ p. has_advanced (row_of m.pointers p) p) pointer_patch cur))
    ∙ ap (λ rows. record m { pointers = rows })
        (diffs_lem base_of (row_diff m.pointers) apply_row HasAdvanced IsNewRow m.pointers cur d g
          (row_diff-PutsRow m.pointers))

row_diff-new : (cur : List ReadPointers) → filter_map (row_diff []) cur ≡ map pointer_patch cur
unfolding row_diff
row_diff-new [] = refl
row_diff-new (p ∷ ps) = ap (λ t. pointer_patch p ∷ t) (row_diff-new ps)

-- The patches of the rows of a new membership, applied to a membership without rows, give them.
pub new_pointers_lem :
    (m : ConferenceMembership) (cur : List ReadPointers)
    → m.pointers ≡ []
    → HasDistinctKeys base_of cur
    → Every IsNewRow cur
    → apply_all apply_pointer (map pointer_patch cur) m ≡ record m { pointers = cur }
new_pointers_lem m cur nil d new =
    ap (λ ps. apply_all apply_pointer ps m) (sym (row_diff-new cur))
    ∙ apply_pointers_lem (filter_map (row_diff []) cur) m
    ∙ ap (λ rows. record m { pointers = apply_all apply_row (filter_map (row_diff []) cur) rows })
        nil
    ∙ ap (λ rows. record m { pointers = rows })
        (diffs_lem base_of (row_diff []) apply_row HasAdvanced IsNewRow [] cur d new
          (row_diff-PutsRow []))
