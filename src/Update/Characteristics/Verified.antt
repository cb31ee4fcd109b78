-- ===== src/Update/Characteristics/Verified.antt =====
-- src/update/characteristic.rs: a full update leaves a CHARACTERISTIC that the strict update accepts.
use a2ltool.Prelude.{
  ℕ, ◌^◌, ◌<◌, Text, Option, none, some, Bool, true, false, ◌&&◌, not, List, ok, ◌>>=◌, length,
  get_elem?, ◌≡◌, refl, sym, ap, ◌∙◌, if-true, arith, ℤ,
}
use mathlib.Core.Path.{subst}
use a2ltool.DebugInfo.{TypeInfo, datatype}
use a2ltool.DebugInfo.UnitName.{map_get}
use a2ltool.Floats.{Floats, IsIeee, is_infinite}
use a2ltool.DataTypes.{get_a2l_datatype}
use a2ltool.A2l.{Module, Characteristic, AxisDescr, FncValues, RecordLayout}
use a2ltool.Update.Info.{A2lUpdateInfo}
use a2ltool.Update.Limits.{adjust_limits}
use a2ltool.Update.Limits.Stable.{HasOwnLimits, limits_kept}
use a2ltool.Update.Fields.{set_matrix_dim}
use a2ltool.Update.IfData.{A2lCrate}
use a2ltool.Update.Results.{updated}
use a2ltool.Update.Measurement.{ConvList, compu_method_of, enum_of, is_bad_conversion}
use a2ltool.Update.Measurement.Equality.{data_type_eq_refl}
use a2ltool.Update.RecordLayouts.Store.{Layouts}
use a2ltool.Update.RecordLayouts.Members.{
  layout_of, get_fnc_values_memberid, get_inner_type, fnc_position,
}
use a2ltool.Update.RecordLayouts.{update_record_layout}
use a2ltool.Update.RecordLayouts.Clone.{new_layout}
use a2ltool.Update.RecordLayouts.Indexed.{IsIndexed}
use a2ltool.Update.RecordLayouts.Replaced.{update_record_layout-Resolves}
use a2ltool.Update.RecordLayouts.Kept.{ValuesTyped, ValuesRetyped, new_layout-Retyped}
use a2ltool.Update.RecordLayouts.Resolved.{Resolves, layout_of-at, fnc_memberid-Resolves}
use a2ltool.Update.Objects.{A2lUpdater, layouts_of, with_layouts}
use a2ltool.Update.AxisPoints.Verified.{cond_create-record_layout}
use a2ltool.Update.Characteristics.Axes.{update_characteristic_axis}
use a2ltool.Update.Characteristics.Datatype.{
  has_shape, has_type, fnc_values_at, update_conversion, update_inner, update_shape, update_layout,
  update_with_member, update_characteristic_datatype, has_fields, verify_with_member,
  verify_characteristic_datatype,
}
use a2ltool.Update.Characteristics.Shape.{axes-AreAlike, kept_shape}

-- The position of the function values is the same in the retyped layout, and the types agree.
values_position :
    (t : TypeInfo) (f : FncValues) (old new : RecordLayout) (inner : TypeInfo)
    → old.fnc_values ≡ some f
    → ValuesRetyped t old.fnc_values new.fnc_values
    → get_inner_type t f.position ≡ some inner
    → (fnc_position new ≡ some f.position)
      × (has_type new.fnc_values (get_a2l_datatype inner) ≡ true)
values_position t f old new inner e h found =
    let typed : ValuesTyped f (some inner) new.fnc_values =
      subst (λ o. ValuesTyped f o new.fnc_values) found
        (subst (λ o. ValuesRetyped t o new.fnc_values) e h) in
    (
      ap (λ o. elim o [ none ↦ none | some g ↦ some g.position ]) typed,
      ap (λ o. has_type o (get_a2l_datatype inner)) typed
          ∙ data_type_eq_refl (get_a2l_datatype inner),
    )

fnc_values_at-Resolves :
    (s : Layouts) (nm : Text) (new : RecordLayout)
    → Resolves s nm new
    → fnc_values_at s.record_layout s.reclayout_info nm ≡ new.fnc_values
unfolding fnc_values_at
fnc_values_at-Resolves s nm new (idx, rl, named, there, same) =
    rw (named, there) (ap (λ (r : RecordLayout). r.fnc_values) (sym same))

all_five :
    (p q r s t : Bool)
    → p ≡ false
    → q ≡ true
    → r ≡ true
    → s ≡ true
    → t ≡ true
    → (not p && (q && (r && (s && t)))) ≡ true
all_five p q r s t hp hq hr hs ht = ground arith

module _ {F D : Type 0} ⦃fl : Floats F⦄ ⦃a2l : A2lCrate D⦄ where
  conversion-record_layout :
      (md : Module F D) (c : Characteristic F D) (t : TypeInfo) (o : Option (List (Text × ℤ)))
      (list : ConvList)
      → (update_conversion md c t list o).1.record_layout ≡ md.record_layout
  unfolding update_conversion
  conversion-record_layout md c t none list = refl
  conversion-record_layout md c t (some es) list = cond_create-record_layout md _ es

  update_layout-ok :
      (updater : A2lUpdater F D) (c : Characteristic F D) (t : TypeInfo) (dims : List (Text × ℕ))
      (rl : Option RecordLayout) (axes : List AxisDescr) (stored : Text × Layouts)
      → layout_of updater.md.record_layout updater.reclayout_info c.deposit ≡ ok rl
      → update_characteristic_axis c.axis_descr rl dims t ≡ ok axes
      → update_record_layout a2l.type_text (layouts_of updater) c.deposit t ≡ ok stored
      → update_layout updater c t dims
        ≡ ok (record c { axis_descr = axes; deposit = stored.0 }, with_layouts updater stored.1)
  unfolding update_layout
  update_layout-ok updater c t dims rl axes stored found described done =
      ap
        (λ q. q >>= λ rl. update_characteristic_axis c.axis_descr rl dims t >>= λ axes.
          update_record_layout a2l.type_text (layouts_of updater) c.deposit t >>= λ stored.
          ok (record c { axis_descr = axes; deposit = stored.0 }, with_layouts updater stored.1))
        found
      ∙ ap
          (λ q. q >>= λ axes.
            update_record_layout a2l.type_text (layouts_of updater) c.deposit t >>= λ stored.
            ok (record c { axis_descr = axes; deposit = stored.0 }, with_layouts updater stored.1))
          described
      ∙ ap
          (λ q. q >>= λ stored.
            ok (record c { axis_descr = axes; deposit = stored.0 }, with_layouts updater stored.1))
          done

  -- The layout that a CHARACTERISTIC is given: the member is the same, and its data type agrees.
  values_stored :
      (updater inner_updater : A2lUpdater F D) (c : Characteristic F D) (t : TypeInfo)
      (dims : List (Text × ℕ)) (idx : ℕ) (old new : RecordLayout) (f : FncValues) (inner : TypeInfo)
      (axes : List AxisDescr)
      → layouts_of inner_updater ≡ layouts_of updater
      → IsIndexed (layouts_of updater)
      → length updater.reclayout_info.idxmap < 2 ^ 31
      → map_get updater.reclayout_info.idxmap c.deposit ≡ some idx
      → get_elem? updater.md.record_layout idx ≡ some old
      → new_layout a2l.type_text old t ≡ ok new
      → update_characteristic_axis c.axis_descr (some old) dims t ≡ ok axes
      → old.fnc_values ≡ some f
      → get_inner_type t f.position ≡ some inner
      → (nm' : Text) × (s' : Layouts) × (update_layout inner_updater c t dims
          ≡ ok (record c { axis_descr = axes; deposit = nm' }, with_layouts inner_updater s'))
        × (get_fnc_values_memberid updater.md.record_layout updater.reclayout_info c.deposit
            ≡ ok f.position)
        × (get_fnc_values_memberid s'.record_layout s'.reclayout_info nm' ≡ ok f.position)
        × (has_type (fnc_values_at s'.record_layout s'.reclayout_info nm') (get_a2l_datatype inner)
            ≡ true)
  values_stored updater inner_updater c t dims idx old new f inner axes same_layouts well few named
        there cloned described fnc member =
      let s = layouts_of updater in
      let (nm', s', stored, resolves, kept) =
        update_record_layout-Resolves a2l.type_text s c.deposit t idx old new well few named there
          cloned in
      let (values, points) = new_layout-Retyped a2l.type_text old new t cloned in
      let (position, typed) = values_position t f old new inner fnc values member in
      (
        nm',
        s',
        update_layout-ok inner_updater c t dims (some old) axes (nm', s')
            (ap (λ (l : Layouts). layout_of l.record_layout l.reclayout_info c.deposit) same_layouts
              ∙ layout_of-at s c.deposit idx old named there)
            described
            (ap (λ l. update_record_layout a2l.type_text l c.deposit t) same_layouts ∙ stored),
        fnc_memberid-Resolves s c.deposit old f.position (idx, old, named, there, refl)
            (ap (λ o. elim o [ none ↦ none | some g ↦ some g.position ]) fnc),
        fnc_memberid-Resolves s' nm' new f.position resolves position,
        ap (λ o. has_type o (get_a2l_datatype inner)) (fnc_values_at-Resolves s' nm' new resolves)
            ∙ typed,
      )

  fields_accepted :
      (info : A2lUpdateInfo) (updater : A2lUpdater F D) (c : Characteristic F D) (inner : TypeInfo)
      (new_dim : Bool)
      → let limits =
          adjust_limits inner c.lower_limit c.upper_limit
            (compu_method_of info updater.md c.conversion) in
        is_bad_conversion c.conversion (enum_of (datatype inner)) ≡ false
        → fl.eq limits.0 c.lower_limit ≡ true
        → fl.eq limits.1 c.upper_limit ≡ true
        → has_shape c.characteristic_type
            (set_matrix_dim c.matrix_dim inner new_dim)
            c.matrix_dim
            c.number
            c.axis_descr
          ≡ true
        → has_type
            (fnc_values_at updater.md.record_layout updater.reclayout_info c.deposit)
            (get_a2l_datatype inner)
          ≡ true
        → verify_with_member info updater c new_dim (some inner) ≡ updated
  unfolding has_fields verify_with_member
  fields_accepted info updater c inner new_dim conv low high shape typed =
      if-true _ _ _ (all_five _ _ _ _ _ conv low high shape typed)

module _ {F D : Type 0} ⦃fl : Floats F⦄ ⦃a2l : A2lCrate D⦄ (ieee : IsIeee fl) where
  -- With numbers that compare as in IEEE 754, for well indexed layouts, fewer than 2^31 of them, and
  -- a CHARACTERISTIC whose layout is `old` with its function values `f` and the member `inner` of
  -- the symbol's type: if the clone of the layout and the update of the axes are defined, the full
  -- update returns, and what it leaves is accepted by the check of the strict update, for the same
  -- symbol. The further conditions are that the member has the dimensions of the symbol's type
  -- and limits of its own, the old limits are finite, the new limits are not both zero and are
  -- no NaN, and an enumeration does not end with the conversion NO_COMPU_METHOD.
  pub verify-update_characteristic_datatype :
      (info : A2lUpdateInfo) (updater : A2lUpdater F D) (c : Characteristic F D) (t : TypeInfo)
      (list : ConvList) (dims : List (Text × ℕ)) (new_dim : Bool) (idx : ℕ) (old new : RecordLayout)
      (f : FncValues) (inner : TypeInfo) (axes : List AxisDescr)
      → let r = update_inner info updater.md c list (some inner) in
        IsIndexed (layouts_of updater)
        → length updater.reclayout_info.idxmap < 2 ^ 31
        → map_get updater.reclayout_info.idxmap c.deposit ≡ some idx
        → get_elem? updater.md.record_layout idx ≡ some old
        → new_layout a2l.type_text old t ≡ ok new
        → update_characteristic_axis c.axis_descr (some old) dims t ≡ ok axes
        → old.fnc_values ≡ some f
        → get_inner_type t f.position ≡ some inner
        → set_matrix_dim c.matrix_dim t new_dim ≡ set_matrix_dim c.matrix_dim inner new_dim
        → HasOwnLimits fl inner
        → is_infinite c.lower_limit ≡ false
        → is_infinite c.upper_limit ≡ false
        → (fl.eq r.0.lower_limit fl.zero_f && fl.eq r.0.upper_limit fl.zero_f) ≡ false
        → fl.eq r.0.lower_limit r.0.lower_limit ≡ true
        → fl.eq r.0.upper_limit r.0.upper_limit ≡ true
        → is_bad_conversion r.0.conversion (enum_of (datatype inner)) ≡ false
        → (c' : Characteristic F D) × (updater' : A2lUpdater F D) × (list' : ConvList)
          × (update_characteristic_datatype updater c t list dims new_dim info
              ≡ ok (c', (updater', list')))
          × (verify_characteristic_datatype updater' info c' t new_dim ≡ ok updated)
  unfolding update_characteristic_datatype verify_characteristic_datatype update_with_member
      update_layout update_inner update_shape compu_method_of
  verify-update_characteristic_datatype info updater c t list dims new_dim idx old new f inner axes
        well few named there cloned described fnc member same_dims own finite finite' used low high
        conv =
      let branch = update_conversion updater.md c inner list (enum_of (datatype inner)) in
      let r = update_inner info updater.md c list (some inner) in
      let inner_updater = record updater { md = r.1 } in
      let shaped = update_shape r.0 t new_dim in
      let same_layouts : layouts_of inner_updater ≡ layouts_of updater = λ i. record {
        record_layout =
            conversion-record_layout updater.md c inner (enum_of (datatype inner)) list i;
        reclayout_info = updater.reclayout_info;
      } in
      let (nm', s', laid, before, after, typed) =
        values_stored updater inner_updater shaped t dims idx old new f inner axes same_layouts well
          few named there cloned described fnc member in
      let c' = record shaped { axis_descr = axes; deposit = nm' } in
      let updater' = with_layouts inner_updater s' in
      let (lower_ok, upper_ok) =
        limits_kept ieee inner c.lower_limit c.upper_limit (compu_method_of info branch.1 branch.0)
          own finite finite' used low high in
      (
        c',
        updater',
        r.2,
        ap
              (λ q. q >>= λ id.
                update_with_member updater c t list dims new_dim info (get_inner_type t id))
              before
            ∙ ap (update_with_member updater c t list dims new_dim info) member
            ∙ ap (λ q. q >>= λ st. ok (st.0, (st.1, r.2))) laid,
        ap (λ q. q >>= λ id. ok (verify_with_member info updater' c' new_dim (get_inner_type t id)))
              after
            ∙ ap (λ o. ok (verify_with_member info updater' c' new_dim o)) member
            ∙ ap ok (
                fields_accepted info updater' c' inner new_dim conv lower_ok upper_ok
                  (kept_shape r.0 t inner new_dim axes same_dims
                    (axes-AreAlike c.axis_descr axes (some old) dims t described))
                  typed),
      )
