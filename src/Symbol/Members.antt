-- ===== src/Symbol/Members.antt =====
-- src/symbol.rs: `find_membertype`, which follows the components of a symbol name through the
-- members, the base classes and the array elements of a type.
-- Fuel: a call on another type consumes a component at least, but for an array without a
-- dimension, where the recursion is on its element type; so one unit of fuel for each component
-- left is enough.
use a2ltool.Prelude.{
  ℕ, zero, suc, ◌+◌, ◌*◌, Text, codes, Option, none, some, ◌&&◌, List, [], ◌∷◌, Outcome, ok, err,
  panic, out_of_fuel, ◌>>=◌, ltb, if◌then◌else◌, wrap64, length, get_or, take, drop, text_eq,
}
use a2ltool.DebugInfo.{
  TypeInfo, DbgDataType, TypeTable, type_info, class, struct, union, array, Members, members_get,
  get_reference,
}
use a2ltool.Symbol.Info.{SymbolError, no_member, no_array_index, index_out_of_bounds, not_matched}
use a2ltool.Symbol.Names.{get_index}

-- An address and a type, or an error.
abbrev pub Found : Type 0
Found = Outcome SymbolError (ℕ × TypeInfo)

-- `find_membertype` at another type, component index and address.
abbrev pub Search : Type 0
Search = TypeInfo → ℕ → ℕ → Found

-- `.ok_or_else(…)?` on the result of `get_index`
abbrev pub index_or_error : Text → Outcome ⊥ (Option ℕ) → Outcome SymbolError ℕ
index_or_error component (ok (some i)) = ok i
index_or_error component (ok none) = err (no_array_index component)
index_or_error component _ = panic

module _ (types : TypeTable) (components : List Text) where
  -- The loop over the dimensions; a missing component is the first element.
  unfoldable pub read_indices : List ℕ → ℕ → ℕ → Outcome SymbolError ℕ
  read_indices [] position multi_index = ok multi_index
  read_indices (current_dim ∷ dims) position multi_index =
      let component = get_or components position (codes "_0_") in
      let rest = λ (i : ℕ).
        read_indices dims (suc position) (wrap64 (wrap64 (multi_index * current_dim) + i)) in
      do
        indexval ← index_or_error component (get_index component)
        if ltb indexval current_dim
            then rest indexval
            else err (index_out_of_bounds indexval components current_dim)

  abbrev pub skip_underscore : ℕ → ℕ
  skip_underscore next =
      if ltb next (length components) && text_eq (get_or components next []) (codes "_")
      then 1
      else 0

  -- `search` is the recursion at the type of the elements.
  unfoldable pub into_array : (ℕ → ℕ → Found) → List ℕ → ℕ → ℕ → ℕ → Found
  unfolding read_indices
  into_array search dim stride index address = do
    multi_index ← read_indices dim index 0
    search (index + length dim) (wrap64 (address + wrap64 (multi_index * stride)))

  unfoldable pub into_member : Search → Members → Text → ℕ → ℕ → Found → Found
  into_member search members key index address missing = elim (members_get members key) [
    | some (membertype, offset) ↦
        search (get_reference membertype types) (suc index) (wrap64 (address + offset))
    | none ↦ missing
  ]

  unfoldable pub into_base_class : Search → Members → Text → ℕ → ℕ → Found → Found
  into_base_class search inheritance key index address missing =
      elim (members_get inheritance key) [
        | some (baseclass_type, offset) ↦
            search baseclass_type (suc index + skip_underscore (suc index))
              (wrap64 (address + offset))
        | none ↦ missing
      ]

  unfoldable pub into_datatype : Search → DbgDataType → ℕ → ℕ → Found
  unfolding into_array into_member into_base_class
  into_datatype search (class size inheritance members) index address =
      let key = get_or components index [] in
      into_member search members key index address (
        into_base_class search inheritance key index address
          (err (no_member key (take index components))))
  into_datatype search (struct size members) index address =
      let key = get_or components index [] in
      into_member search members key index address (err (no_member key (take index components)))
  into_datatype search (union size members) index address =
      let key = get_or components index [] in
      into_member search members key index address (err (no_member key (take index components)))
  into_datatype search (array size dim stride arraytype) index address =
      into_array (search arraytype) dim stride index address
  into_datatype search _ index address = err (not_matched (drop index components) components)

  unfoldable pub find_membertype_fuel : ℕ → Search
  unfolding into_datatype
  find_membertype_fuel zero t index address =
      if ltb index (length components) then out_of_fuel else ok (address, t)
  find_membertype_fuel (suc n) (type_info nm u (array size [] stride arraytype) o) index address =
      let same = into_array (find_membertype_fuel (suc n) arraytype) [] stride index address in
      if ltb index (length components)
      then same
      else ok (address, type_info nm u (array size [] stride arraytype) o)
  find_membertype_fuel (suc n) (type_info nm u d o) index address =
      let deeper = into_datatype (find_membertype_fuel n) d index address in
      if ltb index (length components) then deeper else ok (address, type_info nm u d o)

  unfoldable pub find_membertype : Search
  unfolding find_membertype_fuel
  find_membertype t index address = find_membertype_fuel (length components) t index address
