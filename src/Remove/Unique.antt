-- ===== src/Remove/Unique.antt =====
-- src/remove.rs: which names are in the set of removed items.
use a2ltool.Prelude.{
  Text, false, ◌||◌, List, [], ◌∷◌, ◌++◌, ◌≡◌, refl, Bool-cases, inl, inr, text_eq, arith,
  text_eq_comm, ◌∙◌,
}
use a2ltool.Update.Fields.{contains}
use a2ltool.Update.Measurement.Cleanup.References.{contains-same}
use a2ltool.Remove.{insert_item}

-- No name is there twice.
abbrev pub IsUnique : List Text → Type 0
IsUnique [] = Unit
IsUnique (item ∷ items) = (contains items item ≡ false) × IsUnique items

pub contains-append :
    (items : List Text) (name x : Text)
    → contains (items ++ name ∷ []) x ≡ (contains items x || text_eq name x)
unfolding contains
contains-append [] name x = ground arith
contains-append (item ∷ items) name x = ground (arith, contains-append items name x)

append-IsUnique :
    (items : List Text) (name : Text)
    → contains items name ≡ false
    → IsUnique items
    → IsUnique (items ++ name ∷ [])
unfolding contains
append-IsUnique [] name new unique = (refl, tt)
append-IsUnique (item ∷ items) name new (first, unique) = (
  contains-append items name item ∙ ground (arith, text_eq_comm name item),
  append-IsUnique items name (ground arith) unique,
)

pub insert_item-IsUnique :
    (items : List Text) (name : Text) → IsUnique items → IsUnique (insert_item items name)
insert_item-IsUnique items name unique = elim (Bool-cases (contains items name)) [
  | inl there ↦ rw there unique
  | inr new ↦ rw new (append-IsUnique items name new unique)
]

pub contains-insert_item :
    (items : List Text) (name x : Text)
    → contains (insert_item items name) x ≡ (contains items x || text_eq name x)
contains-insert_item items name x = elim (Bool-cases (contains items name)) [
  | inl there ↦ rw there (ground (arith, contains-same items name x))
  | inr new ↦ rw new (contains-append items name x)
]
