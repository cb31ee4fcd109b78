-- ===== src/Update/RecordLayouts/Store.antt =====
-- src/update/record_layout.rs: `RecordLayoutInfo`, the index of the layouts and their counts.
-- `idxmap` is a hash map: a list of entries, the latest first.
use a2ltool.Prelude.{
  ℕ, zero, suc, ◌+◌, ◌-◌, ◌%◌, ◌^◌, Text, List, [], ◌∷◌, ok, panic, if◌then◌else◌, text_eq,
}
use a2ltool.TypeIter.{Run}
use a2ltool.A2l.{RecordLayout}

pub record RecordLayoutInfo : Type 0 where
  pub idxmap : List (Text × ℕ)
  pub refcount : List ℕ

-- The layouts of a module with their counts.
pub record Layouts : Type 0 where
  pub record_layout : List RecordLayout
  pub reclayout_info : RecordLayoutInfo

-- `xs[i]`
unfoldable pub at : {A : Type 0} → List A → ℕ → Run A
at [] i = panic
at (x ∷ xs) zero = ok x
at (x ∷ xs) (suc i) = at xs i

-- `xs[i] = f(xs[i])`
unfoldable pub update_at : {A : Type 0} → (A → A) → List A → ℕ → List A
update_at f [] i = []
update_at f (x ∷ xs) zero = f x ∷ xs
update_at f (x ∷ xs) (suc i) = x ∷ update_at f xs i

-- `remove` of a hash map.
unfoldable pub map_remove : {A : Type 0} → List (Text × A) → Text → List (Text × A)
map_remove [] key = []
map_remove ((k, v) ∷ entries) key =
    let rest = map_remove entries key in if text_eq k key then rest else (k, v) ∷ rest

-- Counts are usize.
abbrev pub decrease : ℕ → ℕ
decrease n = (n + (2 ^ 64 - 1)) % 2 ^ 64

abbrev pub increase : ℕ → ℕ
increase n = (n + 1) % 2 ^ 64
