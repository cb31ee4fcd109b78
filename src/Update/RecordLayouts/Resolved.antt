-- ===== src/Update/RecordLayouts/Resolved.antt =====
-- src/update/record_layout.rs: the look-ups of a layout by a name that the index finds.
use a2ltool.Prelude.{ℕ, Text, some, ok, ◌>>=◌, get_elem?, ◌≡◌, sym, ap, ◌∙◌}
use a2ltool.DebugInfo.UnitName.{map_get}
use a2ltool.A2l.{RecordLayout}
use a2ltool.Update.RecordLayouts.Store.{Layouts}
use a2ltool.Update.RecordLayouts.Members.{
  layout_of, layout_branch, get_axis_pts_x_memberid, get_fnc_values_memberid, position_or_1,
  axis_position, axis_pts_x_position, fnc_position, fnc_values_position,
}
use a2ltool.Update.RecordLayouts.Entries.{at-get_elem?}

-- The name is found by the index, and its layout has the content of `new`.
abbrev pub Resolves : Layouts → Text → RecordLayout → Type 0
Resolves s nm new =
    (idx : ℕ) × (rl : RecordLayout) × (map_get s.reclayout_info.idxmap nm ≡ some idx)
    × (get_elem? s.record_layout idx ≡ some rl)
    × (new ≡ record rl { name = new.name })

pub layout_of-at :
    (s : Layouts) (nm : Text) (idx : ℕ) (rl : RecordLayout)
    → map_get s.reclayout_info.idxmap nm ≡ some idx
    → get_elem? s.record_layout idx ≡ some rl
    → layout_of s.record_layout s.reclayout_info nm ≡ ok (some rl)
unfolding layout_of
layout_of-at s nm idx rl named there =
    ap (layout_branch s.record_layout) named
    ∙ ap (λ r. r >>= λ rl. ok (some rl)) (at-get_elem? s.record_layout idx rl there)

-- A name that resolves is looked up without a panic.
layout_of-Resolves :
    (s : Layouts) (nm : Text) (new : RecordLayout)
    → Resolves s nm new
    → (rl : RecordLayout) × (layout_of s.record_layout s.reclayout_info nm ≡ ok (some rl))
      × (new ≡ record rl { name = new.name })
layout_of-Resolves s nm new (idx, rl, named, there, same) =
    (rl, layout_of-at s nm idx rl named there, same)

pub memberid-Resolves :
    (s : Layouts) (nm : Text) (new : RecordLayout)
    → Resolves s nm new
    → get_axis_pts_x_memberid s.record_layout s.reclayout_info nm
      ≡ ok (position_or_1 (axis_position new.x))
unfolding get_axis_pts_x_memberid
memberid-Resolves s nm new resolves =
    let (rl, found, same) = layout_of-Resolves s nm new resolves in
    ap (λ q. q >>= λ rl. ok (position_or_1 (axis_pts_x_position rl))) found
    ∙ ap (λ (r : RecordLayout). ok (position_or_1 (axis_position r.x))) (sym same)

pub fnc_memberid-Resolves :
    (s : Layouts) (nm : Text) (new : RecordLayout) (p : ℕ)
    → Resolves s nm new
    → fnc_position new ≡ some p
    → get_fnc_values_memberid s.record_layout s.reclayout_info nm ≡ ok p
unfolding get_fnc_values_memberid
fnc_memberid-Resolves s nm new p resolves at_p =
    let (rl, found, same) = layout_of-Resolves s nm new resolves in
    ap (λ q. q >>= λ rl. ok (position_or_1 (fnc_values_position rl))) found
    ∙ ap (λ (r : RecordLayout). ok (position_or_1 (fnc_position r))) (sym same)
    ∙ ap (λ o. ok (position_or_1 o)) at_p
