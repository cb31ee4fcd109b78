-- ===== src/Update/Instances/Referrers.antt =====
-- src/update/instance.rs: which INSTANCEs the map of the typedefs refers to.
use a2ltool.Prelude.{
  ℕ, zero, suc, ◌==◌, Text, Option, none, some, Bool, false, ◌&&◌, ◌||◌, List, [], ◌∷◌, ◌++◌, ok,
  ◌>>=◌, length, get_elem?, text_eq, text_eq_sound, ◌≡◌, refl, sym, ap, ◌∙◌, Bool-cases, inl, inr,
  arith,
}
use a2ltool.DebugInfo.{TypeInfo}
use a2ltool.A2l.{Module, Instance}
use a2ltool.Update.Info.{A2lUpdateInfo}
use a2ltool.Update.IfData.{A2lCrate}
use a2ltool.Update.Lookup.{get_symbol_info, Found}
use a2ltool.Update.Results.{UpdateResult, updated, symbol_not_found, invalid_data_type}
use a2ltool.Update.Measurement.Total.{Returns}
use a2ltool.Update.Instances.{
  TypedefReferrer, instance_at, structure_component, Referrer, TypedefsRefInfo, push_entry,
  TypedefNames, Single, LoopState, keep_instance, remove_instance, push_back, zeroed, on_found,
  with_symbol, update_module_instance, update_loop, start, update_all_module_instances,
  cleanup_removed_instances,
}

abbrev pub is_at : TypedefReferrer → ℕ → Bool
is_at (instance_at n) i = n == i
is_at (structure_component a b) i = false

abbrev pub lists : List Referrer → ℕ → Bool
lists [] i = false
lists ((t, referrer) ∷ referrers) i = is_at referrer i || lists referrers i

-- The map has an entry for the typedef `key` with the INSTANCE at `i`.
abbrev pub refers : TypedefsRefInfo → Text → ℕ → Bool
refers [] key i = false
refers ((k, referrers) ∷ entries) key i =
    (text_eq k key && lists referrers i) || refers entries key i

lists-append :
    (referrers : List Referrer) (t : Option TypeInfo) (n i : ℕ)
    → lists (referrers ++ (t, instance_at n) ∷ []) i ≡ (lists referrers i || (n == i))
lists-append [] t n i = ground arith
lists-append ((u, referrer) ∷ referrers) t n i = ground (arith, lists-append referrers t n i)

refers-push_entry :
    (entries : TypedefsRefInfo) (k key : Text) (t : Option TypeInfo) (n i : ℕ)
    → refers (push_entry entries k (t, instance_at n)) key i
      ≡ (refers entries key i || (text_eq k key && (n == i)))
unfolding push_entry
refers-push_entry [] k key t n i = ground arith
refers-push_entry ((k', referrers) ∷ entries) k key t n i = elim (Bool-cases (text_eq k' k)) [
  | inl same ↦ rw same (
      ground
        (arith, lists-append referrers t n i, ap (λ s. text_eq s key) (text_eq_sound k' k same)))
  | inr differs ↦ rw differs (ground (arith, refers-push_entry entries k key t n i))
]

module _ {D : Type 0} where
  abbrev pub has_ref : Option (Instance D) → Text → Bool
  has_ref none key = false
  has_ref (some inst) key = text_eq inst.type_ref key

  -- The INSTANCE at `i` is one of the typedef `key`.
  abbrev pub is_instance_of : List (Instance D) → Text → ℕ → Bool
  is_instance_of instances key i = has_ref (get_elem? instances i) key

  is_instance_of-append :
      (instances : List (Instance D)) (inst : Instance D) (key : Text) (i : ℕ)
      → is_instance_of (instances ++ inst ∷ []) key i
        ≡ (is_instance_of instances key i || (text_eq inst.type_ref key && (length instances == i)))
  is_instance_of-append [] inst key zero = ground arith
  is_instance_of-append [] inst key (suc i) = ground arith
  is_instance_of-append (x ∷ instances) inst key zero = ground arith
  is_instance_of-append (x ∷ instances) inst key (suc i) =
      ground (arith, is_instance_of-append instances inst key i)

  -- The map refers to exactly the INSTANCEs, each under the typedef that it names.
  abbrev pub AreReferrers : TypedefsRefInfo → List (Instance D) → Type 0
  AreReferrers entries instances =
      (key : Text) (i : ℕ) → refers entries key i ≡ is_instance_of instances key i

module _ {D : Type 0} ⦃a2l : A2lCrate D⦄ where
  keep_instance-AreReferrers :
      (s : LoopState D) (r : UpdateResult) (t : Option TypeInfo) (inst : Instance D)
      → AreReferrers s.typedef_types s.kept
      → AreReferrers (keep_instance s r t inst).typedef_types (keep_instance s r t inst).kept
  unfolding keep_instance
  keep_instance-AreReferrers s r t inst h key i =
      refers-push_entry s.typedef_types inst.type_ref key t (length s.kept) i
      ∙ ap (λ b. b || (text_eq inst.type_ref key && (length s.kept == i))) (h key i)
      ∙ sym (is_instance_of-append s.kept inst key i)

  push_back-AreReferrers :
      (info : A2lUpdateInfo) (s : LoopState D) (r : Single D)
      → AreReferrers s.typedef_types s.kept
      → AreReferrers (push_back info s r).typedef_types (push_back info s r).kept
  unfolding push_back remove_instance
  push_back-AreReferrers info s (symbol_not_found b n l es, t, inst) h =
      elim (Bool-cases info.preserve_unknown) [
        | inl keep ↦
            rw keep (keep_instance-AreReferrers s (symbol_not_found b n l es) t (zeroed inst) h)
        | inr drop ↦ rw drop h
      ]
  push_back-AreReferrers info s (updated, t, inst) h = keep_instance-AreReferrers s updated t inst h
  push_back-AreReferrers info s (invalid_data_type b n l, t, inst) h =
      keep_instance-AreReferrers s (invalid_data_type b n l) t inst h

  abbrev pub look_up : ℕ → A2lUpdateInfo → Instance D → Found
  look_up fuel info i = get_symbol_info fuel i.name i.symbol_link i.if_data info.debug_data

  abbrev pub AllReturn : ℕ → A2lUpdateInfo → List (Instance D) → Type 0
  AllReturn fuel info [] = Unit
  AllReturn fuel info (i ∷ instances) =
      Returns (look_up fuel info i) × AllReturn fuel info instances

  single-Returns :
      (fuel : ℕ) (info : A2lUpdateInfo) (nameset : TypedefNames) (i : Instance D)
      → Returns (look_up fuel info i)
      → (r : Single D) × (update_module_instance fuel info nameset i ≡ ok r)
  unfolding update_module_instance on_found
  single-Returns fuel info nameset i (inl (s, e)) =
      (with_symbol info nameset i s, ap (on_found info nameset i) e)
  single-Returns fuel info nameset i (inr (es, e)) = (_, ap (on_found info nameset i) e)

  loop-AreReferrers :
      (fuel : ℕ) (info : A2lUpdateInfo) (nameset : TypedefNames) (instances : List (Instance D))
      (s : LoopState D)
      → AllReturn fuel info instances
      → AreReferrers s.typedef_types s.kept
      → (s' : LoopState D) × (update_loop fuel info nameset instances s ≡ ok s')
        × AreReferrers s'.typedef_types s'.kept
  unfolding update_loop
  loop-AreReferrers fuel info nameset [] s h refs = (s, refl, refs)
  loop-AreReferrers fuel info nameset (i ∷ instances) s (first, rest) refs =
      let (r, single) = single-Returns fuel info nameset i first in
      let (s', loop, done) =
        loop-AreReferrers fuel info nameset instances (push_back info s r) rest
          (push_back-AreReferrers info s r refs) in
      (
        s',
        ap (λ q. q >>= λ r. update_loop fuel info nameset instances (push_back info s r)) single
            ∙ loop,
        done,
      )

cleanup_removed_instances-instances :
    {F D : Type 0} (md : Module F D) (removed : List Text)
    → (cleanup_removed_instances md removed).instances ≡ md.instances
unfolding cleanup_removed_instances
cleanup_removed_instances-instances md [] = refl
cleanup_removed_instances-instances md (item ∷ removed) = refl

module _ {D : Type 0} ⦃a2l : A2lCrate D⦄ where
  -- If the look-up of each INSTANCE returns a symbol or messages, the update of all INSTANCEs
  -- returns, and then with the users of the typedefs: under each name it has exactly the places of
  -- the INSTANCEs of the updated module whose type that name is.
  pub update_all_module_instances-AreReferrers :
      {F : Type 0} (fuel : ℕ) (info : A2lUpdateInfo) (nameset : TypedefNames) (md : Module F D)
      → AllReturn fuel info md.instances
      → (md' : Module F D) × (results : List UpdateResult) × (typedef_types : TypedefsRefInfo)
        × (update_all_module_instances fuel info nameset md ≡ ok (md', results, typedef_types))
        × AreReferrers typedef_types md'.instances
  unfolding update_all_module_instances
  update_all_module_instances-AreReferrers fuel info nameset md h =
      let (s, loop, refs) =
        loop-AreReferrers fuel info nameset md.instances start h
          (λ key i. sym (nothing_there key i)) in
      let kept = record md { instances = s.kept } in
      (
        cleanup_removed_instances kept s.removed_items,
        s.results,
        s.typedef_types,
        ap
            (λ q. q >>= λ s. ok (
              cleanup_removed_instances (record md { instances = s.kept }) s.removed_items,
              s.results,
              s.typedef_types,
            ))
            loop,
        λ key i.
            refs key i
            ∙ ap (λ l. is_instance_of l key i)
                (sym (cleanup_removed_instances-instances kept s.removed_items)),
      )
    where
      nothing_there : (key : Text) (i : ℕ) → is_instance_of {D = D} [] key i ≡ false
      nothing_there key i = refl
