-- ===== src/Update/SymbolNames/RoundTrip.antt =====
-- src/update/mod.rs and src/symbol.rs: the tags that `make_symbol_link_string` writes are those
-- that `get_additional_spec` reads.
use mathlib.Core.List.{append_assoc, append-nil}
use a2ltool.Prelude.{
  ℕ, Text, codes, Option, none, some, true, false, List, [], ◌∷◌, ◌++◌, ◌≡◌, refl, sym, ap, ◌∙◌,
  ==_refl, split_at_first, split_on_pair, strip_prefix, strip_last, opt_text_eq, texts_eq,
  opt_text_eq_iff, texts_eq_iff, arith,
}
use a2ltool.DebugInfo.{DebugData, VarInfo}
use a2ltool.DebugInfo.UnitName.{make_simple_unit_name}
use a2ltool.Symbol.Info.{SymbolInfo}
use a2ltool.Symbol.Names.{AdditionalSpec, empty_spec, get_additional_spec, read_spec, strip_braces}
use a2ltool.Symbol.Written.{Lacks, AllLack, IsNonempty}
use a2ltool.Symbol.Lookup.{spec_matches}
use a2ltool.Update.SymbolNames.{
  make_symbol_link_string, tags, function_tag, namespace_tags, unit_tag,
}

-- The texts between the braces.
abbrev brace_all : List Text → Text
brace_all [] = []
brace_all (p ∷ ps) = b'{' ∷ p ++ b'}' ∷ brace_all ps

abbrev body : Text → List Text → Text
body p [] = p
body p (q ∷ qs) = p ++ b'}' ∷ b'{' ∷ body q qs

abbrev function_pieces : Option Text → List Text
function_pieces none = []
function_pieces (some f) = (codes "Function:" ++ f) ∷ []

abbrev namespace_pieces : List Text → List Text → List Text
namespace_pieces [] rest = rest
namespace_pieces (ns ∷ nss) rest = (codes "Namespace:" ++ ns) ∷ namespace_pieces nss rest

abbrev last_pieces : Text → List Text
last_pieces unit_name = (codes "CompileUnit:" ++ unit_name) ∷ codes "Namespace:Global" ∷ []

namespace_tags-brace_all :
    (nss rest : List Text)
    → namespace_tags nss ++ brace_all rest ≡ brace_all (namespace_pieces nss rest)
namespace_tags-brace_all [] rest = refl
namespace_tags-brace_all (ns ∷ nss) rest =
    simp append_assoc (rw (namespace_tags-brace_all nss rest))

split_at_first-brace :
    (s r : Text) → Lacks b'{' s → split_at_first b'{' (s ++ b'{' ∷ r) ≡ some (s, b'{' ∷ r)
unfolding split_at_first
split_at_first-brace [] r h = refl
split_at_first-brace (x ∷ s) r (other, h) = rw (other, split_at_first-brace s r h)

strip_last-append : (c : ℕ) (s : Text) → strip_last c (s ++ c ∷ []) ≡ some s
unfolding strip_last
strip_last-append c [] = rw (==_refl c)
strip_last-append c (x ∷ []) = rw (==_refl c, strip_last)
strip_last-append c (x ∷ y ∷ s) = rw (strip_last-append c (y ∷ s))

brace_all-body : (p : Text) (ps : List Text) → brace_all (p ∷ ps) ≡ b'{' ∷ body p ps ++ b'}' ∷ []
brace_all-body p [] = refl
brace_all-body p (q ∷ qs) =
    ap (λ (t : Text). b'{' ∷ p ++ b'}' ∷ t) (brace_all-body q qs)
    ∙ ap (λ (t : Text). b'{' ∷ t) (sym (append_assoc p (b'}' ∷ b'{' ∷ body q qs) (b'}' ∷ [])))

split_on_pair-piece :
    (p r : Text)
    → Lacks b'}' p
    → split_on_pair b'}' b'{' (p ++ b'}' ∷ b'{' ∷ r) ≡ p ∷ split_on_pair b'}' b'{' r
unfolding split_on_pair
split_on_pair-piece [] r h = refl
split_on_pair-piece (x ∷ []) r (other, h) = rw other
split_on_pair-piece (x ∷ y ∷ p) r (other, h) = rw (other, split_on_pair-piece (y ∷ p) r h)

split_on_pair-last : (p : Text) → Lacks b'}' p → split_on_pair b'}' b'{' p ≡ p ∷ []
unfolding split_on_pair
split_on_pair-last [] h = refl
split_on_pair-last (x ∷ []) h = refl
split_on_pair-last (x ∷ y ∷ p) (other, h) = rw (other, split_on_pair-last (y ∷ p) h)

split_on_pair-body :
    (p : Text) (ps : List Text)
    → AllLack b'}' (p ∷ ps)
    → split_on_pair b'}' b'{' (body p ps) ≡ p ∷ ps
split_on_pair-body p [] h = split_on_pair-last p h.0
split_on_pair-body p (q ∷ qs) h =
    split_on_pair-piece p (body q qs) h.0
    ∙ ap (λ (l : List Text). p ∷ l) (split_on_pair-body q qs h.1)

get_additional_spec-split :
    (v base spec_str s : Text)
    → split_at_first b'{' v ≡ some (base, spec_str)
    → strip_braces spec_str ≡ some s
    → get_additional_spec v ≡ (base, some (read_spec (split_on_pair b'}' b'{' s) empty_spec))
unfolding get_additional_spec
get_additional_spec-split v base spec_str s e e' =
    rw (e, get_additional_spec) (rw (e', strip_braces))

strip_braces-body : (s : Text) → strip_braces (b'{' ∷ s ++ b'}' ∷ []) ≡ some s
unfolding strip_braces
strip_braces-body s = strip_last-append b'}' s

get_additional_spec-braces :
    (s p : Text) (ps : List Text)
    → Lacks b'{' s
    → AllLack b'}' (p ∷ ps)
    → get_additional_spec (s ++ brace_all (p ∷ ps)) ≡ (s, some (read_spec (p ∷ ps) empty_spec))
get_additional_spec-braces s p ps h all = rw (brace_all-body p ps) (
    get_additional_spec-split (s ++ b'{' ∷ (body p ps ++ b'}' ∷ [])) s
      (b'{' ∷ (body p ps ++ b'}' ∷ [])) (body p ps)
      (split_at_first-brace s (body p ps ++ b'}' ∷ []) h) (strip_braces-body (body p ps))
    ∙ ap (λ (l : List Text). (s, some (read_spec l empty_spec))) (split_on_pair-body p ps all))

abbrev pub spec_of : Option Text → Text → List Text → AdditionalSpec
spec_of f unit_name nss = record {
  function_name = f;
  simple_unit_name = some unit_name;
  namespaces = nss;
}

read_spec-namespaces :
    (f : Option Text) (nss before : List Text) (unit_name : Text)
    → read_spec
        (namespace_pieces nss (last_pieces unit_name))
        (record { function_name = f; simple_unit_name = none; namespaces = before })
      ≡ spec_of f unit_name (before ++ nss)
unfolding read_spec strip_prefix
read_spec-namespaces f [] before unit_name = rw (append-nil before)
read_spec-namespaces f (ns ∷ nss) before unit_name =
    read_spec-namespaces f nss (before ++ ns ∷ []) unit_name
    ∙ ap (λ (l : List Text). spec_of f unit_name l) (append_assoc before (ns ∷ []) nss)

abbrev pieces : Option Text → List Text → Text → List Text
pieces f nss unit_name = function_pieces f ++ namespace_pieces nss (last_pieces unit_name)

read_spec-pieces :
    (f : Option Text) (nss : List Text) (unit_name : Text)
    → read_spec (pieces f nss unit_name) empty_spec ≡ spec_of f unit_name nss
unfolding read_spec strip_prefix
read_spec-pieces none nss unit_name = read_spec-namespaces none nss [] unit_name
read_spec-pieces (some f) nss unit_name = read_spec-namespaces (some f) nss [] unit_name

last_tags-brace_all :
    (unit_name : Text)
    → unit_tag (some unit_name) ++ codes "{Namespace:Global}" ≡ brace_all (last_pieces unit_name)
last_tags-brace_all unit_name =
    append_assoc (codes "{CompileUnit:" ++ unit_name) (codes "}") (codes "{Namespace:Global}")

tags-eq-append :
    (f : Option Text) (nss : List Text) (unit_name : Text)
    → tags f nss (some unit_name)
      ≡ function_tag f
        ++ (namespace_tags nss ++ (unit_tag (some unit_name) ++ codes "{Namespace:Global}"))
unfolding tags
tags-eq-append none [] unit_name = refl
tags-eq-append none (ns ∷ nss) unit_name = simp append_assoc
tags-eq-append (some f) [] unit_name = simp append_assoc
tags-eq-append (some f) (ns ∷ nss) unit_name = simp append_assoc

function_tag-brace_all :
    (f : Option Text) (rest : List Text)
    → function_tag f ++ brace_all rest ≡ brace_all (function_pieces f ++ rest)
function_tag-brace_all none rest = refl
function_tag-brace_all (some f) rest =
    append_assoc (codes "{Function:" ++ f) (codes "}") (brace_all rest)

tags-brace_all :
    (f : Option Text) (nss : List Text) (unit_name : Text)
    → tags f nss (some unit_name) ≡ brace_all (pieces f nss unit_name)
tags-brace_all f nss unit_name =
    tags-eq-append f nss unit_name
    ∙ rw (last_tags-brace_all unit_name) (
        rw (namespace_tags-brace_all nss (last_pieces unit_name))
          (function_tag-brace_all f (namespace_pieces nss (last_pieces unit_name))))

-- A text without the closing brace, where there is one.
abbrev pub OptionLacks : Option Text → Type 0
OptionLacks none = Unit
OptionLacks (some f) = Lacks b'}' f

Lacks-append : (p q : Text) → Lacks b'}' p → Lacks b'}' q → Lacks b'}' (p ++ q)
Lacks-append [] q h k = k
Lacks-append (x ∷ p) q (other, h) k = (other, Lacks-append p q h k)

AllLack-namespace_pieces :
    (nss rest : List Text)
    → AllLack b'}' nss
    → AllLack b'}' rest
    → AllLack b'}' (namespace_pieces nss rest)
AllLack-namespace_pieces [] rest h k = k
AllLack-namespace_pieces (ns ∷ nss) rest h k = (
  Lacks-append (codes "Namespace:") ns (ground arith) h.0,
  AllLack-namespace_pieces nss rest h.1 k,
)

AllLack-last_pieces :
    (unit_name : Text) → Lacks b'}' unit_name → AllLack b'}' (last_pieces unit_name)
AllLack-last_pieces unit_name h =
    (Lacks-append (codes "CompileUnit:") unit_name (ground arith) h, ground arith)

AllLack-pieces :
    (f : Option Text) (nss : List Text) (unit_name : Text)
    → OptionLacks f
    → AllLack b'}' nss
    → Lacks b'}' unit_name
    → AllLack b'}' (pieces f nss unit_name)
AllLack-pieces none nss unit_name hf hn hu =
    AllLack-namespace_pieces nss (last_pieces unit_name) hn (AllLack-last_pieces unit_name hu)
AllLack-pieces (some f) nss unit_name hf hn hu = (
  Lacks-append (codes "Function:") f (ground arith) hf,
  AllLack-namespace_pieces nss (last_pieces unit_name) hn (AllLack-last_pieces unit_name hu),
)

get_additional_spec-pieces :
    (s : Text) (ps : List Text) (spec : AdditionalSpec)
    → Lacks b'{' s
    → AllLack b'}' ps
    → IsNonempty ps
    → read_spec ps empty_spec ≡ spec
    → get_additional_spec (s ++ brace_all ps) ≡ (s, some spec)
get_additional_spec-pieces s [] spec hs hp ne e = absurd ne
get_additional_spec-pieces s (p ∷ ps) spec hs hp ne e =
    get_additional_spec-braces s p ps hs hp ∙ ap (λ (sp : AdditionalSpec). (s, some sp)) e

pieces-IsNonempty : (f : Option Text) (nss : List Text) (u : Text) → IsNonempty (pieces f nss u)
pieces-IsNonempty none [] u = tt
pieces-IsNonempty none (ns ∷ nss) u = tt
pieces-IsNonempty (some f) nss u = tt

opt_text_eq_refl : (o : Option Text) → opt_text_eq o o ≡ true
opt_text_eq_refl o = (opt_text_eq_iff o o).1 refl

texts_eq_refl : (l : List Text) → texts_eq l l ≡ true
texts_eq_refl l = (texts_eq_iff l l).1 refl

spec_matches-fields :
    (d : DebugData) (f : Option Text) (u : Text) (nss : List Text) (vi : VarInfo)
    → make_simple_unit_name d vi.unit_idx ≡ some u
    → vi.function ≡ f
    → vi.namespaces ≡ nss
    → spec_matches d (spec_of f u nss) vi ≡ true
unfolding spec_matches
spec_matches-fields d f u nss vi eu ef en =
    rw (eu, ef, en, opt_text_eq_refl (some u), opt_text_eq_refl f, texts_eq_refl nss) (ground arith)

-- The entry of a variable that a symbol is at.
abbrev pub IsEntryOf : SymbolInfo → VarInfo → Type 0
IsEntryOf sym_info vi =
    (vi.unit_idx ≡ sym_info.unit_idx)
    × (vi.function ≡ sym_info.function_name)
    × (vi.namespaces ≡ sym_info.namespaces)

-- Where a symbol is not unique and its unit has a name, the link that is written for it is read
-- back as its name and its function, namespaces and unit, and the entry of the variable that the
-- symbol is at fits what is read: if the symbol's name has no opening brace, and the others have
-- no closing brace.
pub get_additional_spec-make_symbol_link_string :
    (d : DebugData) (s : SymbolInfo) (unit_name : Text) (vi : VarInfo)
    → s.is_unique ≡ false
    → make_simple_unit_name d s.unit_idx ≡ some unit_name
    → Lacks b'{' s.name
    → OptionLacks s.function_name
    → AllLack b'}' s.namespaces
    → Lacks b'}' unit_name
    → IsEntryOf s vi
    → let spec = spec_of s.function_name unit_name s.namespaces in
      (get_additional_spec (make_symbol_link_string s d) ≡ (s.name, some spec))
      × (spec_matches d spec vi ≡ true)
unfolding make_symbol_link_string
get_additional_spec-make_symbol_link_string d s unit_name vi dup unit hs hf hn hu (eu, ef, en) = (
  rw (dup, unit, tags-brace_all s.function_name s.namespaces unit_name)
      (get_additional_spec-pieces s.name (pieces s.function_name s.namespaces unit_name)
        (spec_of s.function_name unit_name s.namespaces) hs
        (AllLack-pieces s.function_name s.namespaces unit_name hf hn hu)
        (pieces-IsNonempty s.function_name s.namespaces unit_name)
        (read_spec-pieces s.function_name s.namespaces unit_name)),
  spec_matches-fields d s.function_name unit_name s.namespaces vi
      (ap (make_simple_unit_name d) eu ∙ unit) ef en,
)
