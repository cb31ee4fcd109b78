-- ===== src/Update/AxisPoints/Verified.antt =====
-- src/update/axis_pts.rs: a full update leaves an AXIS_PTS that the strict update accepts.
use a2ltool.Prelude.{
  ℕ, ◌^◌, ◌<◌, ==_refl, Text, Option, none, some, Bool, true, false, ◌&&◌, not, List, [], ◌∷◌, ok,
  ◌>>=◌, length, get_elem?, ◌≡◌, refl, sym, ap, ◌∙◌, if-true, Bool-cases, inl, inr, arith, ℤ,
}
use mathlib.Core.Path.{subst}
use a2ltool.DebugInfo.{TypeInfo, DbgDataType, array, enumeration, datatype}
use a2ltool.DebugInfo.UnitName.{map_get}
use a2ltool.Symbol.Info.{SymbolInfo}
use a2ltool.Floats.{Floats, IsIeee, is_infinite}
use a2ltool.DataTypes.{get_a2l_datatype, DataType}
use a2ltool.A2l.{Module, AxisPts, AxisPtsDim, RecordLayout}
use a2ltool.Update.Info.{A2lUpdateInfo}
use a2ltool.Update.Limits.{adjust_limits}
use a2ltool.Update.Limits.Stable.{HasOwnLimits, limits_kept}
use a2ltool.Update.IfData.{A2lCrate}
use a2ltool.Update.Enums.{
  cond_create_enum_conversion, create_vtab, has_name, has_vtab, has_vtab_range,
}
use a2ltool.Update.Results.{updated}
use a2ltool.Update.Measurement.{ConvList, compu_method_of}
use a2ltool.Update.Measurement.Equality.{data_type_eq_refl}
use a2ltool.Update.RecordLayouts.Store.{Layouts}
use a2ltool.Update.RecordLayouts.Members.{
  get_axis_pts_x_memberid, get_inner_type, position_or_1, axis_position,
}
use a2ltool.Update.RecordLayouts.{update_record_layout}
use a2ltool.Update.RecordLayouts.Clone.{new_layout}
use a2ltool.Update.RecordLayouts.Indexed.{IsIndexed}
use a2ltool.Update.RecordLayouts.Replaced.{update_record_layout-Resolves}
use a2ltool.Update.RecordLayouts.Kept.{PointsTyped, PointsRetyped, new_layout-Retyped}
use a2ltool.Update.RecordLayouts.Resolved.{Resolves, memberid-Resolves}
use a2ltool.Update.Objects.{A2lUpdater, layouts_of, with_layouts}
use a2ltool.Update.AxisPoints.Datatype.{
  points_of, expected_points, element_type, enum_element, axis_pts_x_at, is_bad_datatype,
  update_inner, update_axis_pts_conversion, update_axis_pts_datatype, has_axis_fields,
  verify_axis_pts_datatype, update_with_member, verify_with_member,
}

-- The type of an axis: an array with a dimension, or an enumeration.
abbrev pub IsAxisType : DbgDataType → Type 0
IsAxisType (array size [] stride arraytype) = ⊥
IsAxisType (array size (d ∷ dim) stride arraytype) = Unit
IsAxisType (enumeration size signed enumerators) = Unit
IsAxisType _ = ⊥

points_expected : (t : DbgDataType) (n : ℕ) → IsAxisType t → points_of t n ≡ expected_points t
points_expected (array size [] stride arraytype) n h = elim h [ ]
points_expected (array size (d ∷ dim) stride arraytype) n h = refl
points_expected (enumeration size signed enumerators) n h = refl
points_expected _ n h = elim h [ ]

-- The member's position is the same in the retyped layout, and the types agree.
points_position :
    (t : TypeInfo) (old new : Option AxisPtsDim) (p : ℕ) (inner : TypeInfo)
    → PointsRetyped t old new
    → position_or_1 (elim old [ none ↦ none | some a ↦ some a.position ]) ≡ p
    → get_inner_type t p ≡ some inner
    → (position_or_1 (elim new [ none ↦ none | some a ↦ some a.position ]) ≡ p)
      × (is_bad_datatype new (get_a2l_datatype inner) ≡ false)
points_position t none new p inner h e found = rw h (e, refl)
points_position t (some a) new p inner h e found =
    let typed : PointsTyped a (some inner) new =
      subst (λ o. PointsTyped a o new) (ap (get_inner_type t) e ∙ found) h in
    rw typed (e, ap not (data_type_eq_refl (get_a2l_datatype inner)))

axis_pts_x_at-Resolves :
    (s : Layouts) (nm : Text) (new : RecordLayout)
    → Resolves s nm new
    → axis_pts_x_at s.record_layout s.reclayout_info nm ≡ new.x.axis_pts
unfolding axis_pts_x_at
axis_pts_x_at-Resolves s nm new (idx, rl, named, there, same) =
    rw (named, there) (ap (λ (r : RecordLayout). r.x.axis_pts) (sym same))

-- The layout that an AXIS_PTS is given: the member is the same, and its data type agrees.
axis_stored :
    (type_text : DataType → Text) (s : Layouts) (deposit : Text) (t : TypeInfo) (idx : ℕ)
    (old new : RecordLayout) (inner : TypeInfo)
    → IsIndexed s
    → length s.reclayout_info.idxmap < 2 ^ 31
    → map_get s.reclayout_info.idxmap deposit ≡ some idx
    → get_elem? s.record_layout idx ≡ some old
    → new_layout type_text old t ≡ ok new
    → let p = position_or_1 (axis_position old.x) in
      get_inner_type t p ≡ some inner
      → (nm' : Text) × (s' : Layouts) × (update_record_layout type_text s deposit t ≡ ok (nm', s'))
        × (get_axis_pts_x_memberid s.record_layout s.reclayout_info deposit ≡ ok p)
        × (get_axis_pts_x_memberid s'.record_layout s'.reclayout_info nm' ≡ ok p)
        × (is_bad_datatype
              (axis_pts_x_at s'.record_layout s'.reclayout_info nm')
              (get_a2l_datatype inner)
            ≡ false)
axis_stored type_text s deposit t idx old new inner well few named there cloned member =
    let (nm', s', stored, resolves, kept) =
      update_record_layout-Resolves type_text s deposit t idx old new well few named there cloned in
    let (values, points) = new_layout-Retyped type_text old new t cloned in
    let (position, typed) =
      points_position t old.x.axis_pts new.x.axis_pts (position_or_1 (axis_position old.x)) inner
        points refl member in
    (
      nm',
      s',
      stored,
      memberid-Resolves s deposit old (idx, old, named, there, refl),
      memberid-Resolves s' nm' new resolves ∙ ap ok position,
      ap (λ o. is_bad_datatype o (get_a2l_datatype inner))
            (axis_pts_x_at-Resolves s' nm' new resolves)
          ∙ typed,
    )

module _ {F D : Type 0} ⦃fl : Floats F⦄ where
  create_vtab-record_layout :
      (md : Module F D) (nm : Text) (es : List (Text × ℤ))
      → (create_vtab md nm es).record_layout ≡ md.record_layout
  unfolding create_vtab
  create_vtab-record_layout md nm es = elim (Bool-cases (has_vtab nm md.compu_vtab)) [
    | inl there ↦ rw there refl
    | inr missing ↦ elim (Bool-cases (has_vtab_range nm md.compu_vtab_range)) [
      | inl range ↦ rw (missing, range) refl
      | inr neither ↦ rw (missing, neither) refl
    ]
  ]

  pub cond_create-record_layout :
      (md : Module F D) (nm : Text) (es : List (Text × ℤ))
      → (cond_create_enum_conversion md nm es).record_layout ≡ md.record_layout
  unfolding cond_create_enum_conversion
  cond_create-record_layout md nm es = elim (Bool-cases (has_name nm md.compu_method)) [
    | inl there ↦ rw there refl
    | inr missing ↦ rw missing (create_vtab-record_layout _ nm es)
  ]

module _ {F D : Type 0} ⦃fl : Floats F⦄ ⦃a2l : A2lCrate D⦄ where
  conversion-record_layout :
      (md : Module F D) (a : AxisPts F D) (o : Option (TypeInfo × List (Text × ℤ)))
      (list : ConvList)
      → (update_axis_pts_conversion md a o list).1.record_layout ≡ md.record_layout
  unfolding update_axis_pts_conversion
  conversion-record_layout md a none list = refl
  conversion-record_layout md a (some (t, es)) list = cond_create-record_layout md _ es

  -- The tests of the check, where the position and the type of the member are as before.
  fields_accepted :
      (info : A2lUpdateInfo) (updater : A2lUpdater F D) (a : AxisPts F D) (inner : TypeInfo)
      (x : Option AxisPtsDim)
      → let limits =
          adjust_limits inner a.lower_limit a.upper_limit
            (compu_method_of info updater.md a.conversion) in
        expected_points (datatype inner) ≡ a.max_axis_points
        → fl.eq limits.0 a.lower_limit ≡ true
        → fl.eq limits.1 a.upper_limit ≡ true
        → axis_pts_x_at updater.md.record_layout updater.reclayout_info a.deposit_record ≡ x
        → is_bad_datatype x (get_a2l_datatype inner) ≡ false
        → has_axis_fields info updater a (some inner) ≡ true
  unfolding has_axis_fields
  fields_accepted info updater a inner x points low high at_x typed =
      all_four _ _ _ _ (rw points (==_refl a.max_axis_points)) low high
        (ap (λ o. is_bad_datatype o (get_a2l_datatype inner)) at_x ∙ typed)
    where
      all_four :
          (p q r s : Bool)
          → p ≡ true
          → q ≡ true
          → r ≡ true
          → s ≡ false
          → (p && (q && (r && not s))) ≡ true
      all_four p q r s hp hq hr hs = ground arith

module _ {F D : Type 0} ⦃fl : Floats F⦄ ⦃a2l : A2lCrate D⦄ (ieee : IsIeee fl) where
  -- With numbers that compare as in IEEE 754, for well indexed layouts, fewer than 2^31 of them, and
  -- an AXIS_PTS whose layout is `old` and whose member of the symbol's type is `inner`, an array with
  -- a dimension or an enumeration: if the clone of the layout is defined, the full update returns,
  -- and what it leaves is accepted by the check of the strict update, for the same symbol. The
  -- further conditions are that the member has limits of its own, the old limits are finite, and
  -- the new limits are not both zero and are no NaN.
  pub verify-update_axis_pts_datatype :
      (info : A2lUpdateInfo) (updater : A2lUpdater F D) (a : AxisPts F D) (sym_info : SymbolInfo)
      (list : ConvList) (idx : ℕ) (old new : RecordLayout) (inner : TypeInfo)
      → let r = update_inner info updater.md a list (some inner) in
        IsIndexed (layouts_of updater)
        → length updater.reclayout_info.idxmap < 2 ^ 31
        → map_get updater.reclayout_info.idxmap a.deposit_record ≡ some idx
        → get_elem? updater.md.record_layout idx ≡ some old
        → new_layout a2l.type_text old sym_info.typeinfo ≡ ok new
        → get_inner_type sym_info.typeinfo (position_or_1 (axis_position old.x)) ≡ some inner
        → IsAxisType (datatype inner)
        → HasOwnLimits fl inner
        → is_infinite a.lower_limit ≡ false
        → is_infinite a.upper_limit ≡ false
        → (fl.eq r.0.lower_limit fl.zero_f && fl.eq r.0.upper_limit fl.zero_f) ≡ false
        → fl.eq r.0.lower_limit r.0.lower_limit ≡ true
        → fl.eq r.0.upper_limit r.0.upper_limit ≡ true
        → (a' : AxisPts F D) × (updater' : A2lUpdater F D) × (list' : ConvList)
          × (update_axis_pts_datatype updater a info sym_info list ≡ ok (a', (updater', list')))
          × (verify_axis_pts_datatype updater' info a' sym_info ≡ ok updated)
  unfolding update_axis_pts_datatype verify_axis_pts_datatype update_with_member verify_with_member
      update_inner compu_method_of
  verify-update_axis_pts_datatype info updater a sym_info list idx old new inner well few named
        there cloned member axis own finite finite' used low high =
      let t = sym_info.typeinfo in
      let element = enum_element (element_type (datatype inner) inner) in
      let branch = update_axis_pts_conversion updater.md a element list in
      let r = update_inner info updater.md a list (some inner) in
      let inner_updater = record updater { md = r.1 } in
      let same_layouts : layouts_of inner_updater ≡ layouts_of updater = λ i. record {
        record_layout = conversion-record_layout updater.md a element list i;
        reclayout_info = updater.reclayout_info;
      } in
      let (nm', s', stored, before, after, typed) =
        axis_stored a2l.type_text (layouts_of updater) a.deposit_record t idx old new inner well few
          named there cloned member in
      let stored_inner =
        ap (λ l. update_record_layout a2l.type_text l a.deposit_record t) same_layouts ∙ stored in
      let a' = record r.0 { deposit_record = nm' } in
      let updater' = with_layouts inner_updater s' in
      let (lower_ok, upper_ok) =
        limits_kept ieee inner a.lower_limit a.upper_limit (compu_method_of info branch.1 branch.0)
          own finite finite' used low high in
      (
        a',
        updater',
        r.2,
        ap (λ q. q >>= λ id. update_with_member updater a info sym_info list (get_inner_type t id))
              before
            ∙ ap (update_with_member updater a info sym_info list) member
            ∙ ap
                (λ q. q >>= λ st.
                  ok (record r.0 { deposit_record = st.0 }, (with_layouts inner_updater st.1, r.2)))
                stored_inner,
        ap (λ q. q >>= λ id. ok (verify_with_member updater' info a' (get_inner_type t id))) after
            ∙ ap (λ o. ok (verify_with_member updater' info a' o)) member
            ∙ ap ok (
                if-true _ _ _ (
                  fields_accepted info updater' a' inner
                    (axis_pts_x_at s'.record_layout s'.reclayout_info nm')
                    (sym (points_expected (datatype inner) a.max_axis_points axis)) lower_ok
                    upper_ok refl typed)),
      )
