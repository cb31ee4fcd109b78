-- ===== src/Update/RecordLayouts/Kept.antt =====
-- src/update/record_layout.rs: what the clone of a layout keeps, and which types it gets.
use a2ltool.Prelude.{
  Text, Option, none, some, ok, >>=-eq-ok, ◌≡◌, refl, sym, ap, ◌∙◌, Bool-cases, inl, inr,
}
use mathlib.Core.Path.{subst}
use a2ltool.DebugInfo.{TypeInfo, datatype}
use a2ltool.TypeIter.{Run}
use a2ltool.DataTypes.{DataType, get_a2l_datatype}
use a2ltool.A2l.{RecordLayout, AxisLayout, AxisPtsDim, NoAxisPts, FncValues}
use a2ltool.Update.Measurement.Equality.{data_type_eq}
use a2ltool.Update.RecordLayouts.Equality.{data_type_eq_sound}
use a2ltool.Update.RecordLayouts.Members.{get_inner_type}
use a2ltool.Update.RecordLayouts.Clone.{
  update_axis_pts, axis_pts_branch, retype_axis_pts, update_no_axis_pts, no_axis_pts_branch,
  retype_no_axis_pts, update_axis, update_fnc_values, fnc_values_branch, retype_fnc_values,
  new_layout, new_axis_pts, fix_points, with_datatype,
}

-- The keyword that is there keeps its position and gets the type of the member.
abbrev pub PointsTyped : AxisPtsDim → Option TypeInfo → Option AxisPtsDim → Type 0
PointsTyped a none new = new ≡ some a
PointsTyped a (some inner) new = new ≡ some (new_axis_pts a inner)

abbrev pub PointsRetyped : TypeInfo → Option AxisPtsDim → Option AxisPtsDim → Type 0
PointsRetyped t none new = new ≡ none
PointsRetyped t (some a) new = PointsTyped a (get_inner_type t a.position) new

abbrev pub ValuesTyped : FncValues → Option TypeInfo → Option FncValues → Type 0
ValuesTyped f none new = new ≡ some f
ValuesTyped f (some inner) new = new ≡ some (with_datatype f (get_a2l_datatype inner))

abbrev pub ValuesRetyped : TypeInfo → Option FncValues → Option FncValues → Type 0
ValuesRetyped t none new = new ≡ none
ValuesRetyped t (some f) new = ValuesTyped f (get_inner_type t f.position) new

ok_injective : {A : Type 0} (a b : A) → ◌≡◌ {A = Run A} (ok a) (ok b) → a ≡ b
ok_injective a b h = cc

retype_no_axis_pts-axis_pts :
    (axis : AxisLayout) (n : NoAxisPts) (inner : Option TypeInfo)
    → (retype_no_axis_pts axis n inner).axis_pts ≡ axis.axis_pts
retype_no_axis_pts-axis_pts axis n none = refl
retype_no_axis_pts-axis_pts axis n (some inner) = refl

no_axis_pts_branch-axis_pts :
    (axis : AxisLayout) (t : TypeInfo) (o : Option NoAxisPts)
    → (no_axis_pts_branch axis t o).axis_pts ≡ axis.axis_pts
no_axis_pts_branch-axis_pts axis t none = refl
no_axis_pts_branch-axis_pts axis t (some n) =
    retype_no_axis_pts-axis_pts axis n (get_inner_type t n.position)

retype_axis_pts-Typed :
    (axis axis' : AxisLayout) (a : AxisPtsDim) (inner : Option TypeInfo)
    → axis.axis_pts ≡ some a
    → retype_axis_pts axis a inner ≡ ok axis'
    → PointsTyped a inner axis'.axis_pts
retype_axis_pts-Typed axis axis' a none e h =
    ap (λ (x : AxisLayout). x.axis_pts) (sym (ok_injective axis axis' h)) ∙ e
retype_axis_pts-Typed axis axis' a (some inner) e h =
    let (points, fixed, done) = >>=-eq-ok (fix_points (datatype inner) axis.fix_no_axis_pts) _ h in
    ap (λ (x : AxisLayout). x.axis_pts) (sym (ok_injective _ axis' done))

axis_pts_branch-Retyped :
    (axis axis' : AxisLayout) (t : TypeInfo) (o : Option AxisPtsDim)
    → axis.axis_pts ≡ o
    → axis_pts_branch axis t o ≡ ok axis'
    → PointsRetyped t o axis'.axis_pts
axis_pts_branch-Retyped axis axis' t none e h =
    ap (λ (x : AxisLayout). x.axis_pts) (sym (ok_injective axis axis' h)) ∙ e
axis_pts_branch-Retyped axis axis' t (some a) e h =
    retype_axis_pts-Typed axis axis' a (get_inner_type t a.position) e h

pub update_axis-Retyped :
    (axis axis' : AxisLayout) (t : TypeInfo)
    → update_axis axis t ≡ ok axis'
    → PointsRetyped t axis.axis_pts axis'.axis_pts
unfolding update_axis update_axis_pts update_no_axis_pts
update_axis-Retyped axis axis' t h =
    let (mid, first, done) = >>=-eq-ok (update_axis_pts axis t) _ h in
    subst (λ o. PointsRetyped t axis.axis_pts o)
      (sym (no_axis_pts_branch-axis_pts mid t mid.no_axis_pts)
        ∙ ap (λ (x : AxisLayout). x.axis_pts) (ok_injective _ axis' done))
      (axis_pts_branch-Retyped axis mid t axis.axis_pts refl first)

module _ (type_text : DataType → Text) where
  retype_fnc_values-Typed :
      (rl : RecordLayout) (f : FncValues) (inner : Option TypeInfo)
      → rl.fnc_values ≡ some f
      → ValuesTyped f inner (retype_fnc_values type_text rl f inner).fnc_values
  retype_fnc_values-Typed rl f none e = e
  retype_fnc_values-Typed rl f (some inner) e =
      elim (Bool-cases (data_type_eq (get_a2l_datatype inner) f.datatype)) [
        | inl same ↦ rw same (
            e
            ∙ ap (λ d. some (with_datatype f d))
                (sym (data_type_eq_sound (get_a2l_datatype inner) f.datatype same)))
        | inr differs ↦ rw differs refl
      ]

  fnc_values_branch-Retyped :
      (rl : RecordLayout) (t : TypeInfo) (o : Option FncValues)
      → rl.fnc_values ≡ o
      → ValuesRetyped t o (fnc_values_branch type_text rl t o).fnc_values
  fnc_values_branch-Retyped rl t none e = e
  fnc_values_branch-Retyped rl t (some f) e =
      retype_fnc_values-Typed rl f (get_inner_type t f.position) e

  -- The clone's function values and points of the x axis.
  pub new_layout-Retyped :
      (old new : RecordLayout) (t : TypeInfo)
      → new_layout type_text old t ≡ ok new
      → ValuesRetyped t old.fnc_values new.fnc_values
        × PointsRetyped t old.x.axis_pts new.x.axis_pts
  unfolding new_layout update_fnc_values
  new_layout-Retyped old new t h =
      let (x, at_x, h₁) = >>=-eq-ok (update_axis old.x t) _ h in
      let (y, at_y, h₂) = >>=-eq-ok (update_axis old.y t) _ h₁ in
      let (z, at_z, h₃) = >>=-eq-ok (update_axis old.z t) _ h₂ in
      let (u, at_u, h₄) = >>=-eq-ok (update_axis old.axis_4 t) _ h₃ in
      let (v, at_v, h₅) = >>=-eq-ok (update_axis old.axis_5 t) _ h₄ in
      let e = ok_injective _ new h₅ in
      (
        subst (λ (n : RecordLayout). ValuesRetyped t old.fnc_values n.fnc_values) e
            (fnc_values_branch-Retyped old t old.fnc_values refl),
        subst (λ (n : RecordLayout). PointsRetyped t old.x.axis_pts n.x.axis_pts) e
            (update_axis-Retyped old.x x t at_x),
      )
