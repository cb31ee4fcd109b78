-- ===== src/Update/IfData/Blocks.antt =====
-- src/update/ifdata_update.rs: what is decoded from the IF_DATA blocks after an update.
use a2ltool.Prelude.{ℕ, Text, Option, none, some, List, [], ◌∷◌, ◌≡◌, refl, pos, ◌∙◌, ap, ap₂}
use a2ltool.DebugInfo.{TypeInfo, DbgDataType, type_info, uint8, array}
use a2ltool.Update.IfData.{
  A2lCrate, Decoded, LinkMap, DpBlob, change_all, change_block, store, or_else, address_change,
  type_change, zero_change, update_ifdata_address, update_ifdata_type, zero_if_data,
  get_symbol_name_from_ifdata, decoded_link_name, link_name_of, or_same, map_option, change,
  zero_link, zero_blob, link_type, link_datatype, update_link_address,
  update_ifdata_address_canape_ext, update_ifdata_address_asap1b_ccp, update_ifdata_type_canape_ext,
  update_ifdata_type_asap1b_ccp,
}

-- What is decoded from a block after `f` has been stored.
abbrev apply_change : (Decoded → Option Decoded) → Option Decoded → Option Decoded
apply_change f none = none
apply_change f (some decoded) = some (or_same (f decoded) decoded)

-- A change that turns each link name `n` into `g n`, and leaves the blocks without one.
abbrev Renames : (Text → Text) → (Decoded → Option Decoded) → Type 0
Renames g f =
    (d : Decoded)
    → link_name_of (or_same (f d) d).canape_ext ≡ map_option g (link_name_of d.canape_ext)

-- What is stored in a block is what is decoded from it.
abbrev pub LoadsStored : {D : Type 0} → A2lCrate D → Type 0
LoadsStored {D} a2l =
    (d : Decoded) (x : D) → a2l.load_from_ifdata (a2l.store_to_ifdata d x) ≡ some d

-- No address and no type is left in the part that is looked at.
abbrev LinkIsZero : Option LinkMap → Type 0
LinkIsZero none = Unit
LinkIsZero (some l) =
    (l.address ≡ pos 0) × (l.datatype ≡ 0) × (l.bit_offset ≡ 0) × (l.datatype_valid ≡ 0)

abbrev BlobIsZero : Option DpBlob → Type 0
BlobIsZero none = Unit
BlobIsZero (some b) = (b.base_address ≡ 0) × (b.address_extension ≡ 0)

abbrev PartIsZero : Option (Option LinkMap) → Option (Option DpBlob) → Type 0
PartIsZero (some link_map) ccp = LinkIsZero link_map
PartIsZero none (some dp_blob) = BlobIsZero dp_blob
PartIsZero none none = Unit

abbrev BlockIsZero : Option Decoded → Type 0
BlockIsZero none = Unit
BlockIsZero (some d) = PartIsZero d.canape_ext d.asap1b_ccp

link_zeroed : (l : Option LinkMap) → LinkIsZero (map_option zero_link l)
link_zeroed none = tt
link_zeroed (some l) = (refl, refl, refl, refl)

blob_zeroed : (b : Option DpBlob) → BlobIsZero (map_option zero_blob b)
blob_zeroed none = tt
blob_zeroed (some b) = (refl, refl)

change_zeroed :
    (l : Option (Option LinkMap)) (b : Option (Option DpBlob))
    → let d : Decoded = record { canape_ext = l; asap1b_ccp = b } in
      let d' = or_same (change (map_option zero_link) (map_option zero_blob) d l b) d in
      PartIsZero d'.canape_ext d'.asap1b_ccp
change_zeroed (some l) b = link_zeroed l
change_zeroed none (some b) = blob_zeroed b
change_zeroed none none = tt

zero-BlockIsZero : (o : Option Decoded) → BlockIsZero (apply_change zero_change o)
zero-BlockIsZero none = tt
zero-BlockIsZero (some d) = change_zeroed d.canape_ext d.asap1b_ccp

-- A change of the links that renames by `g` renames the blocks by `g`.
change-Renames :
    (g : Text → Text) (h : LinkMap → LinkMap) (on_blob : Option DpBlob → Option DpBlob)
    → ((m : LinkMap) → (h m).symbol_name ≡ g m.symbol_name)
    → (l : Option (Option LinkMap)) (b : Option (Option DpBlob))
    → let d : Decoded = record { canape_ext = l; asap1b_ccp = b } in
      link_name_of (or_same (change (map_option h) on_blob d l b) d).canape_ext
      ≡ map_option g (link_name_of l)
change-Renames g h on_blob e (some (some m)) b = ap some (e m)
change-Renames g h on_blob e (some none) b = refl
change-Renames g h on_blob e none (some b) = refl
change-Renames g h on_blob e none none = refl

address-Renames : (nm : Text) (address : ℕ) → Renames (λ _. nm) (address_change nm address)
unfolding update_ifdata_address_canape_ext
address-Renames nm address d =
    change-Renames (λ _. nm) (update_link_address address nm)
      (λ b. update_ifdata_address_asap1b_ccp b address) (λ m. refl) d.canape_ext d.asap1b_ccp

mutual
  unfolding link_type

  link_type-symbol_name : (t : TypeInfo) (m : LinkMap) → (link_type t m).symbol_name ≡ m.symbol_name
  link_type-symbol_name (type_info nm u t o) m = link_datatype-symbol_name t m

  link_datatype-symbol_name :
      (t : DbgDataType) (m : LinkMap) → (link_datatype t m).symbol_name ≡ m.symbol_name
  link_datatype-symbol_name (array size dim stride arraytype) m = link_type-symbol_name arraytype m
  link_datatype-symbol_name uint8 m = refl
  link_datatype-symbol_name _ m = refl

type-Renames : (t : TypeInfo) → Renames (λ n. n) (type_change t)
unfolding update_ifdata_type_canape_ext
type-Renames t d =
    change-Renames (λ n. n) (link_type t) (λ b. update_ifdata_type_asap1b_ccp b t)
      (link_type-symbol_name t) d.canape_ext d.asap1b_ccp

zero-Renames : Renames (λ n. n) zero_change
zero-Renames d =
    change-Renames (λ n. n) zero_link (map_option zero_blob) (λ m. refl) d.canape_ext d.asap1b_ccp

map_option-id : (o : Option Text) → map_option (λ n. n) o ≡ o
map_option-id none = refl
map_option-id (some s) = refl

module _ {D : Type 0} ⦃a2l : A2lCrate D⦄ (loads : LoadsStored a2l) where
  stored_maybe :
      (f : Option Decoded) (x : D) (d : Decoded)
      → a2l.load_from_ifdata x ≡ some d
      → a2l.load_from_ifdata (store f x) ≡ some (or_same f d)
  stored_maybe none x d e = e
  stored_maybe (some d') x d e = loads d' x

  stored :
      (f : Decoded → Option Decoded) (x : D) (o : Option Decoded)
      → a2l.load_from_ifdata x ≡ o
      → a2l.load_from_ifdata (change_block f x o) ≡ apply_change f o
  stored f x none e = e
  stored f x (some d) e = stored_maybe (f d) x d e

  renamed_block :
      (g : Text → Text) (f : Decoded → Option Decoded) (o : Option Decoded)
      → Renames g f
      → decoded_link_name (apply_change f o) ≡ map_option g (decoded_link_name o)
  renamed_block g f none h = refl
  renamed_block g f (some d) h = h d

  map_option-or_else :
      (g : Text → Text) (a b : Option Text)
      → or_else (map_option g a) (map_option g b) ≡ map_option g (or_else a b)
  map_option-or_else g none b = refl
  map_option-or_else g (some a) b = refl

  renamed_all :
      (g : Text → Text) (f : Decoded → Option Decoded) (xs : List D)
      → Renames g f
      → get_symbol_name_from_ifdata (change_all f xs)
        ≡ map_option g (get_symbol_name_from_ifdata xs)
  unfolding change_all get_symbol_name_from_ifdata
  renamed_all g f [] h = refl
  renamed_all g f (x ∷ xs) h =
      ap₂ or_else
        (ap decoded_link_name (stored f x (a2l.load_from_ifdata x) refl)
          ∙ renamed_block g f (a2l.load_from_ifdata x) h)
        (renamed_all g f xs h)
      ∙ map_option-or_else g (decoded_link_name (a2l.load_from_ifdata x))
          (get_symbol_name_from_ifdata xs)

  abbrev pub AllZero : List D → Type 0
  AllZero [] = Unit
  AllZero (x ∷ xs) = BlockIsZero (a2l.load_from_ifdata x) × AllZero xs

  all_zero : (xs : List D) → AllZero (change_all zero_change xs)
  unfolding change_all
  all_zero [] = tt
  all_zero (x ∷ xs) = (
    rw (stored zero_change x (a2l.load_from_ifdata x) refl)
        (zero-BlockIsZero (a2l.load_from_ifdata x)),
    all_zero xs,
  )

  -- Where a block that is stored is decoded as it was stored: the link name that is found in the
  -- blocks after an update of the address and the type is the new one if there was a link name
  -- before, and there is none if there was none; and zeroing the blocks keeps the link name, and
  -- leaves no address and no type in any CANAPE_EXT, and no address in an ASAP1B_CCP that stands
  -- without one.
  pub update_ifdata-link_name :
      (xs : List D) (nm : Text) (address : ℕ) (t : TypeInfo)
      → (get_symbol_name_from_ifdata (update_ifdata_type (update_ifdata_address xs nm address) t)
          ≡ map_option (λ _. nm) (get_symbol_name_from_ifdata xs))
        × (get_symbol_name_from_ifdata (zero_if_data xs) ≡ get_symbol_name_from_ifdata xs)
        × AllZero (zero_if_data xs)
  unfolding update_ifdata_type update_ifdata_address zero_if_data
  update_ifdata-link_name xs nm address t = (
    renamed_all (λ n. n) (type_change t) (change_all (address_change nm address) xs)
          (type-Renames t)
        ∙ map_option-id _
        ∙ renamed_all (λ _. nm) (address_change nm address) xs (address-Renames nm address),
    renamed_all (λ n. n) zero_change xs zero-Renames ∙ map_option-id _,
    all_zero xs,
  )
