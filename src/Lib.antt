-- ===== src/Lib.antt =====
-- A model of the symbol look-up and of the address update of a2ltool, and of the debug info
-- they work on.
--
-- The program reads the variables and types of an executable into `DebugData`
-- (src/debuginfo/mod.rs), resolves the symbol names of an A2L file in it (src/symbol.rs),
-- lists every name that can be resolved (src/debuginfo/iter.rs), and updates the objects of
-- the A2L file with the addresses and types that it finds (src/update/).
--
-- Prelude holds shared types, texts, decimal numbers and list lemmas. DebugInfo models
-- src/debuginfo/mod.rs: types, sizes and accessors. TypeIter and VariableIter model the two
-- iterators of src/debuginfo/iter.rs, with their states as records and a step function. Symbol
-- models src/symbol.rs: Symbol/Names splits names, Symbol/Members walks into a type,
-- Symbol/Lookup chooses the variable, Symbol/Offset finds a component by its offset,
-- Symbol/Info has the results and the error texts.
--
-- A2l has the objects of the a2lfile package, each with the fields that the update reads or
-- writes. DataTypes models src/datatype.rs. Update models src/update/: Limits, Fields,
-- SymbolNames, Lookup and Results are the shared functions of src/update/mod.rs
-- (adjust_limits; the keywords; make_symbol_link_string; get_symbol_info; the results and
-- their log), Info is A2lUpdateInfo and A2lVersion of src/main.rs, IfData is
-- src/update/ifdata_update.rs, Enums is src/update/enums.rs and Measurement is
-- src/update/measurement.rs: the update of one measurement and, in Measurement/Loop, the
-- update of all of them; Measurement/Cleanup removes the references to what was deleted. Blob
-- is src/update/blob.rs. RecordLayouts is src/update/record_layout.rs: the index of the
-- layouts with the counts of their users, and the layout for a new type. Objects is the loop
-- over the objects that the next two share, with A2lUpdater as its state; AxisPoints is
-- src/update/axis_pts.rs and Characteristics is src/update/characteristic.rs: both use
-- RecordLayouts. Instances is src/update/instance.rs, which collects the users of the
-- typedefs. Remove is src/remove.rs, which removes objects by name.
--
-- Samples, UpdateSamples and Examples hold concrete data and the theorems at concrete inputs.
--
-- Arguments of the model. The operations on f64 are a record `Floats` (Floats.antt); a theorem
-- on limits names the laws of comparison that it uses (`IsIeee`). Decoding and storing IF_DATA
-- blocks is the record `A2lCrate` (Update/IfData.antt), with the hypothesis `LoadsStored` that
-- a block which was stored is decoded to what was stored; the keyword of a data type and the
-- comparison of two blocks are fields of it too. The regular expressions of Remove are the
-- record `RegexCrate`: a text is compiled or not, and an expression matches a name or not.
--
-- Recursion through type references, the search by an offset and the loop of an iterator's
-- step run on fuel; running out of it is an outcome of its own, and the theorems on
-- `find_symbol`, `find_membertype` and the iterators show which fuel is enough. The loop of
-- make_unique_reclayout_name has fuel for one name more than there are layouts, which is
-- enough for fewer than 2^31 of them. Hash maps are lists of entries, the latest first, and an
-- index map keeps its order. Integers wrap around as in a release build. The layout
-- information of the A2L objects is a flag. The keywords of a RECORD_LAYOUT that the program
-- only compares are texts.
--
-- Not modelled: run_update and its summary, which need the update of the typedefs
-- (src/update/typedef.rs), the comparison and the display of types, the readers of DWARF and
-- PDB files, the insertion of A2L objects, the change of versions, the XCP output, the command
-- line.

pub mod Prelude
pub mod DebugInfo
pub mod TypeIter
pub mod Symbol
pub mod Floats
pub mod DataTypes
pub mod A2l
pub mod Update
pub mod Remove
pub mod VariableIter
mod Examples
mod Samples
mod UpdateSamples
