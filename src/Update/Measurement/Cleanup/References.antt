-- ===== src/Update/Measurement/Cleanup/References.antt =====
-- src/update/measurement.rs: what `cleanup_removed_measurements` leaves of the references.
use a2ltool.Prelude.{
  Text, Option, none, some, Bool, true, false, ◌&&◌, not, List, [], ◌∷◌, map, ◌≡◌, refl, ap, ◌∙◌,
  Bool-cases, inl, inr, ◌⊎◌, text_eq, text_eq_sound, arith,
}
use a2ltool.A2l.{Module, FunctionBlock, Characteristic, TypedefCharacteristic, AxisDescr}
use a2ltool.Update.Fields.{cleanup_item_list, contains}
use a2ltool.Update.Measurement.Cleanup.{
  cleanup_references, cleanup_references_all, cleanup_removed_measurements, cleanup_quantity,
  cleanup_comparison, no_input_quantity, if_nonempty,
}

pub contains-same :
    (removed : List Text) (item x : Text)
    → text_eq item x ≡ true
    → contains removed item ≡ contains removed x
contains-same removed item x h = ap (contains removed) (text_eq_sound item x h)

pub contains-cleanup_item_list :
    (items removed : List Text) (x : Text)
    → contains (cleanup_item_list items removed) x ≡ (contains items x && not (contains removed x))
unfolding contains cleanup_item_list
contains-cleanup_item_list [] removed x = refl
contains-cleanup_item_list (item ∷ items) removed x =
    ground (arith, contains-same removed item x, contains-cleanup_item_list items removed x)

abbrev pub refers : Option (List Text) → Text → Bool
refers none x = false
refers (some identifier_list) x = contains identifier_list x

-- A name is referred to afterwards exactly if it was and is not removed.
abbrev pub ReferencesCleaned : List Text → Option (List Text) → Option (List Text) → Type 0
ReferencesCleaned removed old new =
    (x : Text) → refers new x ≡ (refers old x && not (contains removed x))

refers-if_nonempty : (l : List Text) (x : Text) → refers (if_nonempty l) x ≡ contains l x
unfolding contains
refers-if_nonempty [] x = refl
refers-if_nonempty (y ∷ l) x = refl

pub references_cleaned :
    (removed : List Text) (o : Option (List Text))
    → ReferencesCleaned removed o (cleanup_references removed o)
unfolding cleanup_references
references_cleaned removed none x = refl
references_cleaned removed (some l) x =
    refers-if_nonempty (cleanup_item_list l removed) x ∙ contains-cleanup_item_list l removed x

-- A quantity stays, or it was removed and is replaced.
abbrev pub QuantityCleaned : List Text → Text → Text → Type 0
QuantityCleaned removed old new =
    ((contains removed old ≡ false) × (new ≡ old))
    ⊎ ((contains removed old ≡ true) × (new ≡ no_input_quantity))

quantity_cleaned :
    (removed : List Text) (q : Text) → QuantityCleaned removed q (cleanup_quantity removed q)
unfolding cleanup_quantity
quantity_cleaned removed q = elim (Bool-cases (contains removed q)) [
  | inl gone ↦ rw gone (inr (refl, refl))
  | inr there ↦ rw there (inl (refl, refl))
]

-- Two lists of one length, related place by place.
abbrev pub All2 : {A : Type 0} → (A → A → Type 0) → List A → List A → Type 0
All2 R [] [] = Unit
All2 R (x ∷ xs) (y ∷ ys) = R x y × All2 R xs ys
All2 R _ _ = ⊥

pub All2-map :
    {A : Type 0} (R : A → A → Type 0) (f : A → A)
    → ((x : A) → R x (f x))
    → (xs : List A) → All2 R xs (map f xs)
All2-map R f h [] = tt
All2-map R f h (x ∷ xs) = (h x, All2-map R f h xs)

All2-same : {A : Type 0} (R : A → A → Type 0) → ((x : A) → R x x) → (xs : List A) → All2 R xs xs
All2-same R h [] = tt
All2-same R h (x ∷ xs) = (h x, All2-same R h xs)

same_references : (o : Option (List Text)) → ReferencesCleaned [] o o
unfolding contains
same_references o x = ground arith

abbrev pub ComparisonCleaned : List Text → Option Text → Option Text → Type 0
ComparisonCleaned removed none new = new ≡ none
ComparisonCleaned removed (some q) new =
    ((contains removed q ≡ false) × (new ≡ some q)) ⊎ ((contains removed q ≡ true) × (new ≡ none))

comparison_cleaned :
    (removed : List Text) (o : Option Text)
    → ComparisonCleaned removed o (cleanup_comparison removed o)
unfolding cleanup_comparison
comparison_cleaned removed none = refl
comparison_cleaned removed (some q) = elim (Bool-cases (contains removed q)) [
  | inl gone ↦ rw gone (inr (refl, refl))
  | inr there ↦ rw there (inl (refl, refl))
]

same_comparison : (o : Option Text) → ComparisonCleaned [] o o
unfolding contains
same_comparison none = refl
same_comparison (some q) = inl (refl, refl)

abbrev FunctionCleaned : List Text → FunctionBlock → FunctionBlock → Type 0
FunctionCleaned removed f f' =
    ReferencesCleaned removed f.in_measurement f'.in_measurement
    × ReferencesCleaned removed f.loc_measurement f'.loc_measurement
    × ReferencesCleaned removed f.out_measurement f'.out_measurement

abbrev AxisDescrCleaned : List Text → AxisDescr → AxisDescr → Type 0
AxisDescrCleaned removed a a' =
    QuantityCleaned removed a.input_quantity a'.input_quantity
    × (a'.max_axis_points ≡ a.max_axis_points)
    × (a'.axis_pts_ref ≡ a.axis_pts_ref)

abbrev TypedefCleaned : List Text → TypedefCharacteristic → TypedefCharacteristic → Type 0
TypedefCleaned removed c c' =
    (c'.name ≡ c.name) × All2 (AxisDescrCleaned removed) c.axis_descr c'.axis_descr

module _ {F D : Type 0} where
  abbrev CharacteristicCleaned : List Text → Characteristic F D → Characteristic F D → Type 0
  CharacteristicCleaned removed c c' =
      (c'.name ≡ c.name)
      × All2 (AxisDescrCleaned removed) c.axis_descr c'.axis_descr
      × ComparisonCleaned removed c.comparison_quantity c'.comparison_quantity

  abbrev pub ModuleCleaned : List Text → Module F D → Module F D → Type 0
  ModuleCleaned removed md md' =
      All2
        (λ g g'.
          ReferencesCleaned removed g.ref_measurement g'.ref_measurement
          × (g'.ref_characteristic ≡ g.ref_characteristic))
        md.group md'.group
      × All2 (FunctionCleaned removed) md.function md'.function
      × All2 (CharacteristicCleaned removed) md.characteristic md'.characteristic
      × All2 (TypedefCleaned removed) md.typedef_characteristic md'.typedef_characteristic
      × All2
          (λ a a'. (a'.name ≡ a.name) × QuantityCleaned removed a.input_quantity a'.input_quantity)
          md.axis_pts md'.axis_pts
      × All2
          (λ a a'. (a'.name ≡ a.name) × QuantityCleaned removed a.input_quantity a'.input_quantity)
          md.typedef_axis md'.typedef_axis
      × (md'.measurement ≡ md.measurement)

  all_cleaned :
      (md : Module F D) (removed : List Text)
      → ModuleCleaned removed md (cleanup_references_all md removed)
  unfolding cleanup_references_all
  all_cleaned md removed = (
    All2-map _ _ (λ g. (references_cleaned removed g.ref_measurement, refl)) md.group,
    All2-map _ _
        (λ f. (
          references_cleaned removed f.in_measurement,
          references_cleaned removed f.loc_measurement,
          references_cleaned removed f.out_measurement,
        ))
        md.function,
    All2-map _ _
        (λ c. (
          refl,
          All2-map _ _ (λ a. (quantity_cleaned removed a.input_quantity, refl, refl)) c.axis_descr,
          comparison_cleaned removed c.comparison_quantity,
        ))
        md.characteristic,
    All2-map _ _
        (λ c. (
          refl,
          All2-map _ _ (λ a. (quantity_cleaned removed a.input_quantity, refl, refl)) c.axis_descr,
        ))
        md.typedef_characteristic,
    All2-map _ _ (λ a. (refl, quantity_cleaned removed a.input_quantity)) md.axis_pts,
    All2-map _ _ (λ a. (refl, quantity_cleaned removed a.input_quantity)) md.typedef_axis,
    refl,
  )

  same_cleaned : (md : Module F D) → ModuleCleaned [] md md
  unfolding contains
  same_cleaned md = (
    All2-same _ (λ g. (same_references g.ref_measurement, refl)) md.group,
    All2-same _
        (λ f. (
          same_references f.in_measurement,
          same_references f.loc_measurement,
          same_references f.out_measurement,
        ))
        md.function,
    All2-same _
        (λ c. (
          refl,
          All2-same _ (λ a. (inl (refl, refl), refl, refl)) c.axis_descr,
          same_comparison c.comparison_quantity,
        ))
        md.characteristic,
    All2-same _ (λ c. (refl, All2-same _ (λ a. (inl (refl, refl), refl, refl)) c.axis_descr))
        md.typedef_characteristic,
    All2-same _ (λ a. (refl, inl (refl, refl))) md.axis_pts,
    All2-same _ (λ a. (refl, inl (refl, refl))) md.typedef_axis,
    refl,
  )

  -- After the clean-up a group or function refers to exactly the names that it referred to and that
  -- are not removed, in each of its lists; a removed input quantity of an axis is replaced by
  -- NO_INPUT_QUANTITY, a removed comparison quantity is deleted, and other quantities, the
  -- names and the order of the objects, and the MEASUREMENTs are unchanged.
  pub cleanup_removed_measurements-ModuleCleaned :
      (md : Module F D) (removed : List Text)
      → ModuleCleaned removed md (cleanup_removed_measurements md removed)
  unfolding cleanup_removed_measurements
  cleanup_removed_measurements-ModuleCleaned md [] = same_cleaned md
  cleanup_removed_measurements-ModuleCleaned md (item ∷ removed) = all_cleaned md (item ∷ removed)
