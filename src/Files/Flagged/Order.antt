-- ===== src/Files/Flagged/Order.antt =====
-- The order of the flagged keys of rust/src/domain/files/flagged.rs, and what flagging does to it.
use Prim.Native.Nat.{Ordering}
use nextexpress.Prelude.{◌≡◌, refl, ap, Bool, false, not, ◌||◌, List, [], ◌∷◌, arith, any}
use nextexpress.Text.{Text}
use nextexpress.Files.Flagged.{
  FlaggedKey, FlaggedFiles, compare_text, compare_key, place, insert_key, flag, contains, is_eq,
}

compare_text_eq : (a b : Text) → compare_text a b ≡ Ordering.eq → a ≡ b
compare_text_eq [] [] h = refl
compare_text_eq [] (b ∷ bs) h = absurd cc
compare_text_eq (a ∷ as') [] h = absurd cc
compare_text_eq (a ∷ as') (b ∷ bs) h = ground (arith, compare_text_eq as' bs)

compare_text_refl : (a : Text) → compare_text a a ≡ Ordering.eq
compare_text_refl [] = refl
compare_text_refl (a ∷ as') = ground (arith, compare_text_refl as')

compare_text_trans :
    (a b c : Text)
    → compare_text a b ≡ Ordering.lt
    → compare_text b c ≡ Ordering.lt
    → compare_text a c ≡ Ordering.lt
compare_text_trans [] [] c h k = absurd cc
compare_text_trans [] (b ∷ bs) [] h k = absurd cc
compare_text_trans [] (b ∷ bs) (c ∷ cs) h k = refl
compare_text_trans (a ∷ as') [] c h k = absurd cc
compare_text_trans (a ∷ as') (b ∷ bs) [] h k = absurd cc
compare_text_trans (a ∷ as') (b ∷ bs) (c ∷ cs) h k =
    ground (arith, compare_text_trans as' bs cs, compare_text_eq as' bs, compare_text_eq bs cs)

compare_text_flip : (a b : Text) → compare_text a b ≡ Ordering.gt → compare_text b a ≡ Ordering.lt
compare_text_flip [] [] h = absurd cc
compare_text_flip [] (b ∷ bs) h = absurd cc
compare_text_flip (a ∷ as') [] h = refl
compare_text_flip (a ∷ as') (b ∷ bs) h =
    ground (arith, compare_text_flip as' bs, compare_text_eq as' bs, compare_text_refl as')

compare_key_eq : (a b : FlaggedKey) → compare_key a b ≡ Ordering.eq → a ≡ b
unfolding compare_key
compare_key_eq a b h = ground (arith, compare_text_eq a.name b.name)

compare_key_refl : (a : FlaggedKey) → compare_key a a ≡ Ordering.eq
unfolding compare_key
compare_key_refl a = ground (arith, compare_text_refl a.name)

compare_key_trans :
    (a b c : FlaggedKey)
    → compare_key a b ≡ Ordering.lt
    → compare_key b c ≡ Ordering.lt
    → compare_key a c ≡ Ordering.lt
unfolding compare_key
compare_key_trans a b c h k = ground (arith, compare_text_trans a.name b.name c.name)

compare_key_flip :
    (a b : FlaggedKey) → compare_key a b ≡ Ordering.gt → compare_key b a ≡ Ordering.lt
unfolding compare_key
compare_key_flip a b h = ground (arith, compare_text_flip a.name b.name)

-- Each key precedes all the keys after it.
abbrev Heads : FlaggedKey → List FlaggedKey → Type 0
Heads key [] = Unit
Heads key (k ∷ ks) = (compare_key key k ≡ Ordering.lt) × Heads key ks

abbrev pub Ascends : List FlaggedKey → Type 0
Ascends [] = Unit
Ascends (k ∷ ks) = Heads k ks × Ascends ks

abbrev has : FlaggedKey → List FlaggedKey → Bool
has key ks = any (λ k. is_eq (compare_key key k)) ks

Heads-trans :
    (a b : FlaggedKey) (ks : List FlaggedKey)
    → compare_key a b ≡ Ordering.lt
    → Heads b ks
    → Heads a ks
Heads-trans a b [] h v = tt
Heads-trans a b (k ∷ ks) h v = (compare_key_trans a b k h v.0, Heads-trans a b ks h v.1)

Heads-has : (a : FlaggedKey) (ks : List FlaggedKey) → Heads a ks → has a ks ≡ false
Heads-has a [] v = refl
Heads-has a (k ∷ ks) v = ground (arith, v.0, Heads-has a ks v.1)

Heads-insert_key :
    (a key : FlaggedKey) (ks : List FlaggedKey)
    → compare_key a key ≡ Ordering.lt
    → Heads a ks
    → Heads a (insert_key key ks).0
unfolding insert_key
Heads-insert_key a key [] h v = (h, tt)
Heads-insert_key a key (k ∷ ks) h v = split (compare_key key k) (Heads-insert_key a key ks h v.1)
  where
    split :
        (o : Ordering)
        → Heads a (insert_key key ks).0
        → Heads a (place o key k ks (insert_key key ks)).0
    split Ordering.lt r = (h, v)
    split Ordering.eq r = v
    split Ordering.gt r = (v.0, r)

-- What an insertion makes of an ascending list.
record IsInserted (key : FlaggedKey) (ks : List FlaggedKey) (out : List FlaggedKey × Bool)
    : Type 0 where
  pub ascends : Ascends out.0
  pub holds :
      (other : FlaggedKey) → has other out.0 ≡ (is_eq (compare_key other key) || has other ks)
  pub is_new : out.1 ≡ not (has key ks)

insert_key-IsInserted :
    (key : FlaggedKey) (ks : List FlaggedKey) → Ascends ks → IsInserted key ks (insert_key key ks)
unfolding insert_key
insert_key-IsInserted key [] v = record {
  ascends = (tt, tt);
  holds = λ other. ground arith;
  is_new = refl;
}
insert_key-IsInserted key (k ∷ ks) v =
    split (compare_key key k) refl (insert_key-IsInserted key ks v.1)
  where
    split :
        (o : Ordering)
        → compare_key key k ≡ o
        → IsInserted key ks (insert_key key ks)
        → IsInserted key (k ∷ ks) (place o key k ks (insert_key key ks))
    split Ordering.lt e r = record {
      ascends = ((e, Heads-trans key k ks e v.0), v);
      holds = λ other. refl;
      is_new = ground (arith, e, Heads-has key ks (Heads-trans key k ks e v.0));
    }
    split Ordering.eq e r = record {
      ascends = v;
      holds = λ other. ground (arith, ap (compare_key other) (compare_key_eq key k e));
      is_new = ground (arith, e);
    }
    split Ordering.gt e r = record {
      ascends = (Heads-insert_key k key ks (compare_key_flip key k e) v.0, r.ascends);
      holds = λ other. ground (arith, r.holds other);
      is_new = ground (arith, e, r.is_new);
    }

-- Flagging a file keeps the keys in ascending order, makes the set contain exactly the key and what
-- it contained before, and reports the key as new exactly if the set did not contain it.
pub flag_lem :
    (key : FlaggedKey) (files : FlaggedFiles)
    → Ascends files.set
    → Ascends (flag key files).0.set
      × ((other : FlaggedKey)
          → contains other (flag key files).0
            ≡ (is_eq (compare_key other key) || contains other files))
      × ((flag key files).1 ≡ not (contains key files))
unfolding flag contains
flag_lem key files v =
    let inserted = insert_key-IsInserted key files.set v in
    (inserted.ascends, inserted.holds, inserted.is_new)
