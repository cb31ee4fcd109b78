-- ===== src/Remove/Again.antt =====
-- src/remove.rs: a second removal with the same expressions.
use mathlib.Core.List.{append_assoc, append-nil}
use mathlib.Core.Path.{subst}
use a2ltool.TypeIter.{Run}
use a2ltool.Prelude.{
  ℕ, length, >>=-eq-ok, Text, codes, none, some, Bool, false, List, [], ◌∷◌, ◌++◌, ok, ◌≡◌, refl,
  ap, ap₂, ◌∙◌, Bool-cases, inl, inr, arith, Option,
}
use a2ltool.A2l.{Module, Characteristic, Measurement, Instance, Group}
use a2ltool.Update.Fields.{contains, cleanup_item_list}
use a2ltool.Update.Measurement.Cleanup.{cleanup_references, if_nonempty}
use a2ltool.Remove.{
  RegexCrate, Removal, on_hit, match_loop, swap_loop, cleanup_groups, compile_all,
  remove_from_module, module_loop, remove_items,
}
use a2ltool.Remove.Matched.{any_match, unmatched, swap_loop-Swaps}

cleanup_item_list-nil : (l : List Text) → cleanup_item_list l [] ≡ l
unfolding cleanup_item_list contains
cleanup_item_list-nil [] = refl
cleanup_item_list-nil (item ∷ l) = ap (λ rest. item ∷ rest) (cleanup_item_list-nil l)

if_nonempty-again : (l : List Text) → cleanup_references [] (if_nonempty l) ≡ if_nonempty l
unfolding cleanup_references
if_nonempty-again [] = refl
if_nonempty-again (item ∷ l) = ap if_nonempty (cleanup_item_list-nil (item ∷ l))

references_again :
    (removed : List Text) (o : Option (List Text))
    → cleanup_references [] (cleanup_references removed o) ≡ cleanup_references removed o
unfolding cleanup_references
references_again removed none = refl
references_again removed (some l) = if_nonempty-again (cleanup_item_list l removed)

groups_again :
    (removed : List Text) (gs : List Group)
    → cleanup_groups [] (cleanup_groups removed gs) ≡ cleanup_groups removed gs
unfolding cleanup_groups
groups_again removed [] = refl
groups_again removed (g ∷ gs) =
    ap₂ (λ (x : Group) (xs : List Group). x ∷ xs)
      (ap₂ (λ m c. record g { ref_measurement = m; ref_characteristic = c })
        (references_again removed g.ref_measurement)
        (references_again removed g.ref_characteristic))
      (groups_again removed gs)

module _ {Regex : Type 0} (crate : RegexCrate Regex) where
  match_loop-miss :
      (kind name : Text) (regexes : List Regex) (removed : Bool) (s : Removal)
      → any_match crate regexes name ≡ false
      → match_loop crate kind name regexes removed s ≡ (removed, s)
  unfolding match_loop on_hit
  match_loop-miss kind name [] removed s h = refl
  match_loop-miss kind name (regex ∷ regexes) removed s h =
      let here : crate.is_match regex name ≡ false = ground arith in
      let rest : any_match crate regexes name ≡ false = ground arith in
      rw here (match_loop-miss kind name regexes removed s rest)

  -- No expression matches an object of the list.
  abbrev AllMiss : {A : Type 0} → (A → Text) → List Regex → List A → Type 0
  AllMiss name_of regexes [] = Unit
  AllMiss name_of regexes (a ∷ rest) =
      (any_match crate regexes (name_of a) ≡ false) × AllMiss name_of regexes rest

  unmatched-AllMiss :
      {A : Type 0} (name_of : A → Text) (regexes : List Regex) (l : List A)
      → AllMiss name_of regexes (unmatched crate name_of regexes l)
  unmatched-AllMiss name_of regexes [] = tt
  unmatched-AllMiss name_of regexes (a ∷ l) =
      elim (Bool-cases (any_match crate regexes (name_of a))) [
        | inl hit ↦ rw hit (unmatched-AllMiss name_of regexes l)
        | inr miss ↦ rw miss (miss, unmatched-AllMiss name_of regexes l)
      ]

  swap_loop-AllMiss :
      {A : Type 0} (name_of : A → Text) (kind : Text) (regexes : List Regex) (l kept : List A)
      (s : Removal)
      → AllMiss name_of regexes l
      → swap_loop crate name_of kind regexes l kept s ≡ (kept ++ l, s)
  unfolding swap_loop
  swap_loop-AllMiss name_of kind regexes [] kept s h = rw (append-nil kept) refl
  swap_loop-AllMiss name_of kind regexes (a ∷ l) kept s (first, rest) =
      rw (match_loop-miss kind (name_of a) regexes false s first) (
        swap_loop-AllMiss name_of kind regexes l (kept ++ a ∷ []) s rest
        ∙ ap (λ x. (x, s)) (append_assoc kept (a ∷ []) l))

  -- The objects that a loop leaves are left by every further loop.
  swap_loop-again :
      {A : Type 0} (name_of : A → Text) (kind : Text) (regexes : List Regex) (l : List A)
      (s t : Removal)
      → let kept = (swap_loop crate name_of kind regexes l [] s).0 in
        swap_loop crate name_of kind regexes kept [] t ≡ (kept, t)
  swap_loop-again name_of kind regexes l s t =
      let e = (swap_loop-Swaps crate name_of kind regexes l [] s).0 in
      rw e (
        swap_loop-AllMiss name_of kind regexes (unmatched crate name_of regexes l) [] t
          (unmatched-AllMiss name_of regexes l))

  module _ {F D : Type 0} where
    -- A module that is left by the removal is left by every further one.
    remove_from_module-again :
        (regexes : List Regex) (md : Module F D) (s : Removal) (log : List Text)
        → let md' = (remove_from_module crate regexes md s).0 in
          let t : Removal = record { removed_items = []; log_messages = log } in
          remove_from_module crate regexes md' t ≡ (md', t)
    unfolding remove_from_module
    remove_from_module-again regexes md s log =
        let t : Removal = record { removed_items = []; log_messages = log } in
        let c_of = λ (x : Characteristic F D). x.name in
        let m_of = λ (x : Measurement F D). x.name in
        let i_of = λ (x : Instance D). x.name in
        let c_loop = swap_loop crate c_of (codes "characteristic") regexes md.characteristic [] s in
        let m_loop =
          swap_loop crate m_of (codes "measurement") regexes md.measurement [] c_loop.1 in
        let i_loop = swap_loop crate i_of (codes "instance") regexes md.instances [] m_loop.1 in
        let c = swap_loop-again c_of (codes "characteristic") regexes md.characteristic s t in
        let m = swap_loop-again m_of (codes "measurement") regexes md.measurement c_loop.1 t in
        let i = swap_loop-again i_of (codes "instance") regexes md.instances m_loop.1 t in
        let g = groups_again i_loop.1.removed_items md.group in rw (c, m, i, g) refl

    module_loop-again :
        (regexes : List Regex) (modules : List (Module F D)) (s : Removal) (log : List Text)
        → let modules' = (module_loop crate regexes modules s).0 in
          let t : Removal = record { removed_items = []; log_messages = log } in
          module_loop crate regexes modules' t ≡ (modules', t)
    unfolding module_loop
    module_loop-again regexes [] s log = refl
    module_loop-again regexes (md ∷ modules) s log =
        let here = remove_from_module crate regexes md s in
        let modules' = (module_loop crate regexes modules here.1).0 in
        ap
          (λ (h : Module F D × Removal).
            let rest = module_loop crate regexes modules' h.1 in (h.0 ∷ rest.0, rest.1))
          (remove_from_module-again regexes md s log)
        ∙ ap (λ (r : List (Module F D) × Removal). (here.0 ∷ r.0, r.1))
            (module_loop-again regexes modules here.1 log)

  results-injective :
      {F D : Type 0} (a b : List (Module F D) × List Text × ℕ)
      → ◌≡◌ {A = Run (List (Module F D) × List Text × ℕ)} (ok a) (ok b)
      → a ≡ b
  results-injective a b h = cc

  -- Where a removal returns, another one with the same expressions returns the same modules and the
  -- same log, and removes nothing.
  pub remove_items-remove_items :
      {F D : Type 0} (modules modules' : List (Module F D)) (regex_strings log log' : List Text)
      (count : ℕ)
      → remove_items crate modules regex_strings log ≡ ok (modules', log', count)
      → remove_items crate modules' regex_strings log' ≡ ok (modules', log', 0)
  unfolding remove_items
  remove_items-remove_items {F = F} {D = D} modules modules' regex_strings log log' count h =
      let s : Removal = record { removed_items = []; log_messages = log } in
      let (regexes, compiled, finished) =
        >>=-eq-ok (compile_all crate regex_strings)
          (λ regexes.
            let r = module_loop crate regexes modules s in
            ok (r.0, r.1.log_messages, length r.1.removed_items))
          h in
      let r = module_loop crate regexes modules s in
      let e =
        results-injective (r.0, r.1.log_messages, length r.1.removed_items) (modules', log', count)
          finished in
      subst (λ q. remove_items crate q.0 regex_strings q.1 ≡ ok (q.0, q.1, 0)) e
        (rw compiled (
          ap
            (λ (q : List (Module F D) × Removal).
              ok (q.0, q.1.log_messages, length q.1.removed_items))
            (module_loop-again regexes modules s r.1.log_messages)))
