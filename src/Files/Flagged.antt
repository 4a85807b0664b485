-- ===== src/Files/Flagged.antt =====
-- rust/src/domain/files/flagged.rs: the files that a session has flagged. The BTreeSet is the list
-- of its keys in ascending order: by conference, and then by the bytes of the name.
pub mod Order
use Prim.Native.Nat.{compare, Ordering}
use nextexpress.Prelude.{
  ℕ, ◌-◌, Bool, true, false, ◌&&◌, List, [], ◌∷◌, map, leb, any, if◌then◌else◌,
}
use nextexpress.Text.{Text}

pub record FlaggedKey : Type 0 where
  pub conference : ℕ
  pub name : Text

abbrev to_ascii_uppercase : ℕ → ℕ
to_ascii_uppercase c = if leb b'a' c && leb c b'z' then c - 32 else c

unfoldable pub new_key : ℕ → Text → FlaggedKey
new_key conference name = record { conference = conference; name = map to_ascii_uppercase name }

abbrev pub compare_text : Text → Text → Ordering
compare_text [] [] = Ordering.eq
compare_text [] (b ∷ bs) = Ordering.lt
compare_text (a ∷ xs) [] = Ordering.gt
compare_text (a ∷ xs) (b ∷ bs) =
    let rest = compare_text xs bs in
    elim (compare a b) [
      | Ordering.lt ↦ Ordering.lt
      | Ordering.gt ↦ Ordering.gt
      | Ordering.eq ↦ rest
    ]

unfoldable pub compare_key : FlaggedKey → FlaggedKey → Ordering
compare_key a b = elim (compare a.conference b.conference) [
  | Ordering.lt ↦ Ordering.lt
  | Ordering.gt ↦ Ordering.gt
  | Ordering.eq ↦ compare_text a.name b.name
]

pub record FlaggedFiles : Type 0 where
  pub set : List FlaggedKey

abbrev pub empty : FlaggedFiles
empty = record { set = [] }

-- Where a key goes that compares so to the first of a set, given the rest with it inserted.
abbrev pub place :
    Ordering
    → FlaggedKey
    → FlaggedKey
    → List FlaggedKey
    → List FlaggedKey × Bool
    → List FlaggedKey × Bool
place Ordering.lt key k ks rest = (key ∷ k ∷ ks, true)
place Ordering.eq key k ks rest = (k ∷ ks, false)
place Ordering.gt key k ks rest = (k ∷ rest.0, rest.1)

-- `BTreeSet::insert`: the new set, and whether the key was new.
unfoldable pub insert_key : FlaggedKey → List FlaggedKey → List FlaggedKey × Bool
insert_key key [] = (key ∷ [], true)
insert_key key (k ∷ ks) = place (compare_key key k) key k ks (insert_key key ks)

unfoldable pub flag : FlaggedKey → FlaggedFiles → FlaggedFiles × Bool
unfolding insert_key
flag key files = let (set, added) = insert_key key files.set in (record { set = set }, added)

abbrev pub is_eq : Ordering → Bool
is_eq Ordering.eq = true
is_eq _ = false

unfoldable pub contains : FlaggedKey → FlaggedFiles → Bool
contains key files = any (λ k. is_eq (compare_key key k)) files.set

unfoldable pub clear : FlaggedFiles → FlaggedFiles
clear files = empty

unfoldable pub names : FlaggedFiles → List Text
names files = map (λ k. k.name) files.set

unfoldable pub entries : FlaggedFiles → List (ℕ × Text)
entries files = map (λ k. (k.conference, k.name)) files.set
