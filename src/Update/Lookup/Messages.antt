-- ===== src/Update/Lookup/Messages.antt =====
-- src/update/mod.rs: the error messages that `get_symbol_info` collects.
use a2ltool.Prelude.{
  Text, Option, none, some, false, List, [], ◌∷◌, ◌++◌, Bool-cases, ◌≡◌, refl, inl, inr, arith,
  text_eq, text_eq_comm, ◌∙◌,
}
use a2ltool.Update.Fields.{contains}
use a2ltool.Update.Lookup.{push_new, push_first}

-- There is a message, and none is there twice.
abbrev pub MessagesDiffer : List Text → Type 0
MessagesDiffer [] = Unit
MessagesDiffer (m ∷ ms) = (contains ms m ≡ false) × MessagesDiffer ms

abbrev pub IsNonempty : List Text → Type 0
IsNonempty [] = ⊥
IsNonempty (m ∷ ms) = Unit

abbrev pub AreMessages : List Text → Type 0
AreMessages ms = IsNonempty ms × MessagesDiffer ms

contains-append :
    (ms : List Text) (m n : Text)
    → contains ms m ≡ false
    → text_eq n m ≡ false
    → contains (ms ++ n ∷ []) m ≡ false
unfolding contains
contains-append [] m n h other = rw other
contains-append (x ∷ ms) m n h other = ground (arith, contains-append ms m n)

differ-append :
    (ms : List Text) (n : Text)
    → contains ms n ≡ false
    → MessagesDiffer ms
    → MessagesDiffer (ms ++ n ∷ [])
unfolding contains
differ-append [] n h differ = (refl, tt)
differ-append (m ∷ ms) n h (first, differ) = (
  contains-append ms m n first (text_eq_comm n m ∙ ground arith),
  differ-append ms n (ground arith) differ,
)

pub push_new-differ :
    (ms : List Text) (o : Option Text) → MessagesDiffer ms → MessagesDiffer (push_new ms o)
push_new-differ ms none differ = differ
push_new-differ ms (some m) differ = elim (Bool-cases (contains ms m)) [
  | inl there ↦ rw there differ
  | inr new ↦ rw new (differ-append ms m new differ)
]

append-IsNonempty : (ms : List Text) (m : Text) → IsNonempty (ms ++ m ∷ [])
append-IsNonempty [] m = tt
append-IsNonempty (x ∷ ms) m = tt

pub push_new-keeps : (ms : List Text) (o : Option Text) → IsNonempty ms → IsNonempty (push_new ms o)
push_new-keeps ms none h = h
push_new-keeps ms (some m) h = elim (Bool-cases (contains ms m)) [
  | inl there ↦ rw there h
  | inr new ↦ rw new (append-IsNonempty ms m)
]

pub push_new-some : (ms : List Text) (m : Text) → IsNonempty (push_new ms (some m))
unfolding contains
push_new-some [] m = tt
push_new-some (x ∷ ms) m = push_new-keeps (x ∷ ms) (some m) tt

pub push_first-differ : (o : Option Text) → MessagesDiffer (push_first o)
unfolding contains
push_first-differ none = tt
push_first-differ (some m) = (refl, tt)
