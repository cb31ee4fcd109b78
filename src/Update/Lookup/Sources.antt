-- ===== src/Update/Lookup/Sources.antt =====
-- src/update/mod.rs: where the result of `get_symbol_info` comes from.
use a2ltool.Prelude.{
  ℕ, Text, Option, none, some, List, [], ◌∷◌, Outcome, ok, err, panic, out_of_fuel, ℤ, pos, int_eq,
  int_eq_iff, Bool-cases, ◌≡◌, ◌≢◌, refl, sym, ap, ◌∙◌, false, ◌⊎◌, inl, inr,
}
use a2ltool.DebugInfo.{DebugData}
use a2ltool.Symbol.Info.{SymbolInfo, SymbolError}
use a2ltool.Symbol.Lookup.{find_symbol}
use a2ltool.Symbol.Offset.{find_symbol_by_offset}
use a2ltool.A2l.{SymbolLink}
use a2ltool.Update.Fields.{contains}
use a2ltool.Update.IfData.{A2lCrate, get_symbol_name_from_ifdata}
use a2ltool.Update.Lookup.Messages.{
  AreMessages, IsNonempty, push_new-differ, push_new-keeps, push_new-some, push_first-differ,
}
use a2ltool.Update.Lookup.{
  Found, Attempt, finished, failed, attempt, at_offset, with_message, link_attempt, name_attempt,
  unless_linked, push_new, push_first, first_attempt, get_symbol_info,
}

-- The symbol of the link, at its offset if that is not 0.
abbrev pub IsOfLink : ℕ → DebugData → Option SymbolLink → SymbolInfo → Type 0
IsOfLink fuel d none s = ⊥
IsOfLink fuel d (some l) s =
    ((l.offset ≡ pos 0) × (find_symbol l.symbol_name d ≡ ok s))
    ⊎ ((l.offset ≢ pos 0)
        × (base : SymbolInfo) × (find_symbol l.symbol_name d ≡ ok base)
        × (find_symbol_by_offset fuel base l.offset d ≡ ok s))

abbrev pub IsNamed : DebugData → Option Text → SymbolInfo → Type 0
IsNamed d none s = ⊥
IsNamed d (some name) s = find_symbol name d ≡ ok s

-- The look-up of the name, if there is one, has failed.
abbrev pub HasNoSymbol : DebugData → Option Text → Type 0
HasNoSymbol d none = Unit
HasNoSymbol d (some name) = (e : SymbolError) × (find_symbol name d ≡ err e)

abbrev pub LinkFails : DebugData → Option SymbolLink → Type 0
LinkFails d none = Unit
LinkFails d (some l) = HasNoSymbol d (some l.symbol_name)

finished-inj : (a b : Found) → finished a ≡ finished b → a ≡ b
finished-inj a b h = cc

finished-ok :
    (a b : SymbolInfo)
    → finished (ok a) ≡ finished (ok b)
    → ◌≡◌ {A = Outcome SymbolError SymbolInfo} (ok a) (ok b)
finished-ok a b h = cc

ok-ne-err : (a : SymbolInfo) (ms : List Text) → ◌≢◌ {A = Found} (ok a) (err ms)
ok-ne-err a ms h = cc

finished-ne-failed : (a : Found) → finished a ≢ failed none
finished-ne-failed a h = cc

finished-ne-any : (a : Found) (m : Option Text) → finished a ≢ failed m
finished-ne-any a m h = cc

attempt-ok :
    (r : Outcome SymbolError SymbolInfo) (s : SymbolInfo) → attempt r ≡ finished (ok s) → r ≡ ok s
attempt-ok (ok s') s h = cc
attempt-ok (err e) s h = cc
attempt-ok panic s h = cc
attempt-ok out_of_fuel s h = cc

attempt-err : (r : Outcome SymbolError SymbolInfo) (ms : List Text) → attempt r ≢ finished (err ms)
attempt-err (ok s') ms h = cc
attempt-err (err e) ms h = cc
attempt-err panic ms h = cc
attempt-err out_of_fuel ms h = cc

attempt-failed : (r : Outcome SymbolError SymbolInfo) → attempt r ≢ failed none
attempt-failed (ok s') h = cc
attempt-failed (err e) h = cc
attempt-failed panic h = cc
attempt-failed out_of_fuel h = cc

name_attempt-ok :
    (o : Option Text) (d : DebugData) (s : SymbolInfo)
    → name_attempt o d ≡ finished (ok s)
    → IsNamed d o s
unfolding name_attempt
name_attempt-ok none d s h = cc
name_attempt-ok (some name) d s h = attempt-ok (find_symbol name d) s h

name_attempt-err :
    (o : Option Text) (d : DebugData) (ms : List Text) → name_attempt o d ≢ finished (err ms)
unfolding name_attempt
name_attempt-err none d ms h = cc
name_attempt-err (some name) d ms h = attempt-err (find_symbol name d) ms h

name_attempt-failed : (name : Text) (d : DebugData) → name_attempt (some name) d ≢ failed none
unfolding name_attempt
name_attempt-failed name d h = attempt-failed (find_symbol name d) h

with_message-ok :
    (r : Outcome SymbolError SymbolInfo) (s : SymbolInfo) → with_message r ≡ ok s → r ≡ ok s
with_message-ok (ok s') s h = cc
with_message-ok (err e) s h = cc
with_message-ok panic s h = cc
with_message-ok out_of_fuel s h = cc

with_message-err :
    (r : Outcome SymbolError SymbolInfo) (ms : List Text) → with_message r ≡ err ms → AreMessages ms
unfolding contains
with_message-err (ok s') ms h = cc
with_message-err (err e) [] h = cc
with_message-err (err e) (m ∷ []) h = (tt, (refl, tt))
with_message-err (err e) (m ∷ m' ∷ ms) h = cc
with_message-err panic ms h = cc
with_message-err out_of_fuel ms h = cc

int_eq-false : (a b : ℤ) → int_eq a b ≡ false → a ≢ b
int_eq-false a b h e = let same = (int_eq_iff a b).1 e in let clash = sym h ∙ same in cc

at_offset-ok :
    (fuel : ℕ) (offset : ℤ) (d : DebugData) (r : Outcome SymbolError SymbolInfo) (s : SymbolInfo)
    → at_offset fuel offset d r ≡ finished (ok s)
    → ((offset ≡ pos 0) × (r ≡ ok s))
      ⊎ ((offset ≢ pos 0)
          × (base : SymbolInfo) × (r ≡ ok base)
          × (find_symbol_by_offset fuel base offset d ≡ ok s))
at_offset-ok fuel offset d (ok base) s h = elim (Bool-cases (int_eq offset (pos 0))) [
  | inl zero_offset ↦
      inl ((int_eq_iff offset (pos 0)).0 zero_offset, finished-ok _ _ (rw zero_offset at h))
  | inr nonzero ↦ inr (
    int_eq-false offset (pos 0) nonzero,
    base,
    refl,
    with_message-ok _ s (finished-inj _ _ (rw nonzero at h)),
  )
]
at_offset-ok fuel offset d (err e) s h = cc
at_offset-ok fuel offset d panic s h = cc
at_offset-ok fuel offset d out_of_fuel s h = cc

at_offset-err :
    (fuel : ℕ) (offset : ℤ) (d : DebugData) (r : Outcome SymbolError SymbolInfo) (ms : List Text)
    → at_offset fuel offset d r ≡ finished (err ms)
    → AreMessages ms
at_offset-err fuel offset d (ok base) ms h = elim (Bool-cases (int_eq offset (pos 0))) [
  | inl zero_offset ↦ absurd (ok-ne-err base ms (finished-inj _ _ (rw zero_offset at h)))
  | inr nonzero ↦ with_message-err _ ms (finished-inj _ _ (rw nonzero at h))
]
at_offset-err fuel offset d (err e) ms h = cc
at_offset-err fuel offset d panic ms h = cc
at_offset-err fuel offset d out_of_fuel ms h = cc

at_offset-failed :
    (fuel : ℕ) (offset : ℤ) (d : DebugData) (r : Outcome SymbolError SymbolInfo)
    → at_offset fuel offset d r ≢ failed none
at_offset-failed fuel offset d (ok base) h = elim (Bool-cases (int_eq offset (pos 0))) [
  | inl zero_offset ↦ finished-ne-failed _ (rw zero_offset at h)
  | inr nonzero ↦ finished-ne-failed _ (rw nonzero at h)
]
at_offset-failed fuel offset d (err e) h = cc
at_offset-failed fuel offset d panic h = cc
at_offset-failed fuel offset d out_of_fuel h = cc

link_attempt-ok :
    (fuel : ℕ) (o : Option SymbolLink) (d : DebugData) (s : SymbolInfo)
    → link_attempt fuel o d ≡ finished (ok s)
    → IsOfLink fuel d o s
unfolding link_attempt
link_attempt-ok fuel none d s h = cc
link_attempt-ok fuel (some l) d s h = at_offset-ok fuel l.offset d (find_symbol l.symbol_name d) s h

link_attempt-err :
    (fuel : ℕ) (o : Option SymbolLink) (d : DebugData) (ms : List Text)
    → link_attempt fuel o d ≡ finished (err ms)
    → AreMessages ms
unfolding link_attempt
link_attempt-err fuel none d ms h = cc
link_attempt-err fuel (some l) d ms h =
    at_offset-err fuel l.offset d (find_symbol l.symbol_name d) ms h

link_attempt-failed :
    (fuel : ℕ) (o : Option SymbolLink) (d : DebugData)
    → link_attempt fuel o d ≡ failed none
    → o ≡ none
unfolding link_attempt
link_attempt-failed fuel none d h = refl
link_attempt-failed fuel (some l) d h =
    absurd (at_offset-failed fuel l.offset d (find_symbol l.symbol_name d) h)

attempt-HasNoSymbol :
    (name : Text) (d : DebugData) (r : Outcome SymbolError SymbolInfo) (m : Option Text)
    → find_symbol name d ≡ r
    → attempt r ≡ failed m
    → HasNoSymbol d (some name)
attempt-HasNoSymbol name d (ok s) m e h = cc
attempt-HasNoSymbol name d (err x) m e h = (x, e)
attempt-HasNoSymbol name d panic m e h = cc
attempt-HasNoSymbol name d out_of_fuel m e h = cc

name_attempt-HasNoSymbol :
    (o : Option Text) (d : DebugData) (m : Option Text)
    → name_attempt o d ≡ failed m
    → HasNoSymbol d o
unfolding name_attempt
name_attempt-HasNoSymbol none d m h = tt
name_attempt-HasNoSymbol (some name) d m h =
    attempt-HasNoSymbol name d (find_symbol name d) m refl h

at_offset-HasNoSymbol :
    (fuel : ℕ) (l : SymbolLink) (d : DebugData) (r : Outcome SymbolError SymbolInfo)
    (m : Option Text)
    → find_symbol l.symbol_name d ≡ r
    → at_offset fuel l.offset d r ≡ failed m
    → HasNoSymbol d (some l.symbol_name)
at_offset-HasNoSymbol fuel l d (ok s) m e h = elim (Bool-cases (int_eq l.offset (pos 0))) [
  | inl zero_offset ↦ absurd (finished-ne-any _ m (rw zero_offset at h))
  | inr nonzero ↦ absurd (finished-ne-any _ m (rw nonzero at h))
]
at_offset-HasNoSymbol fuel l d (err x) m e h = (x, e)
at_offset-HasNoSymbol fuel l d panic m e h = cc
at_offset-HasNoSymbol fuel l d out_of_fuel m e h = cc

link_attempt-LinkFails :
    (fuel : ℕ) (o : Option SymbolLink) (d : DebugData) (m : Option Text)
    → link_attempt fuel o d ≡ failed m
    → LinkFails d o
unfolding link_attempt
link_attempt-LinkFails fuel none d m h = tt
link_attempt-LinkFails fuel (some l) d m h =
    at_offset-HasNoSymbol fuel l d (find_symbol l.symbol_name d) m refl h

-- The attempt has left a message, or was not made.
abbrev Failed : Attempt → Type 0
Failed a = (m : Option Text) × (a ≡ failed m)

first_attempt-ok :
    (a b c : Attempt) (s : SymbolInfo)
    → first_attempt a b c ≡ ok s
    → (a ≡ finished (ok s))
      ⊎ ((Failed a × (b ≡ finished (ok s))) ⊎ (Failed a × Failed b × (c ≡ finished (ok s))))
first_attempt-ok (finished r) b c s h = inl (ap finished h)
first_attempt-ok (failed m1) (finished r) c s h = inr (inl ((m1, refl), ap finished h))
first_attempt-ok (failed m1) (failed m2) (finished r) s h =
    inr (inr ((m1, refl), (m2, refl), ap finished h))
first_attempt-ok (failed m1) (failed m2) (failed m3) s h = cc

own_name :
    (d : DebugData) (o : Option SymbolLink) (name : Text) (s : SymbolInfo)
    → IsNamed d (unless_linked o name) s
    → (o ≡ none) × (find_symbol name d ≡ ok s)
own_name d none name s h = (refl, h)
own_name d (some l) name s h = absurd h

err-injective : (a b : List Text) → ◌≡◌ {A = Found} (err a) (err b) → a ≡ b
err-injective a b h = cc

collected-IsNonempty :
    (m1 m2 m3 : Option Text)
    → (m1 ≡ none → m3 ≢ none)
    → IsNonempty (push_new (push_new (push_first m1) m2) m3)
collected-IsNonempty (some m) m2 m3 h =
    push_new-keeps (push_new (m ∷ []) m2) m3 (push_new-keeps (m ∷ []) m2 tt)
collected-IsNonempty none m2 none h = absurd (h refl refl)
collected-IsNonempty none m2 (some m) h = push_new-some (push_new [] m2) m

-- The messages of a search in which every attempt has failed.
collected :
    (m1 m2 m3 : Option Text)
    → (m1 ≡ none → m3 ≢ none)
    → AreMessages (push_new (push_new (push_first m1) m2) m3)
collected m1 m2 m3 h = (
  collected-IsNonempty m1 m2 m3 h,
  push_new-differ (push_new (push_first m1) m2) m3
      (push_new-differ (push_first m1) m2 (push_first-differ m1)),
)

first_attempt-err :
    (a b c : Attempt) (ms : List Text)
    → first_attempt a b c ≡ err ms
    → (a ≡ finished (err ms) → AreMessages ms)
    → b ≢ finished (err ms)
    → c ≢ finished (err ms)
    → (a ≡ failed none → c ≢ failed none)
    → AreMessages ms
first_attempt-err (finished r) b c ms h ha hb hc some_made = ha (ap finished h)
first_attempt-err (failed m1) (finished r) c ms h ha hb hc some_made = absurd (hb (ap finished h))
first_attempt-err (failed m1) (failed m2) (finished r) ms h ha hb hc some_made =
    absurd (hc (ap finished h))
first_attempt-err (failed m1) (failed m2) (failed m3) ms h ha hb hc some_made =
    rw (← err-injective _ _ h) (collected m1 m2 m3 (λ e e'. some_made (ap failed e) (ap failed e')))

third_made :
    (fuel : ℕ) (o : Option SymbolLink) (name : Text) (d : DebugData)
    → link_attempt fuel o d ≡ failed none
    → name_attempt (unless_linked o name) d ≢ failed none
third_made fuel o name d h = rw (link_attempt-failed fuel o d h) (name_attempt-failed name d)

module _ {D : Type 0} ⦃a2l : A2lCrate D⦄ where
  -- A symbol that is found for an object is that of its SYMBOL_LINK, and then at the link's offset
  -- exactly where that is not 0; or, if there is no link or its name is not found, that of the name
  -- in the object's IF_DATA; or, if there is no link and no name in the IF_DATA is found, that of
  -- the object's own name. An error has at least one message, and no message twice.
  pub get_symbol_info_lem :
      (fuel : ℕ) (name : Text) (link : Option SymbolLink) (ifdata : List D) (d : DebugData)
      → let by_ifdata = get_symbol_name_from_ifdata ifdata in
        ((s : SymbolInfo)
          → get_symbol_info fuel name link ifdata d ≡ ok s
          → IsOfLink fuel d link s
            ⊎ ((LinkFails d link × IsNamed d by_ifdata s)
                ⊎ ((link ≡ none) × HasNoSymbol d by_ifdata × (find_symbol name d ≡ ok s))))
        × ((ms : List Text) → get_symbol_info fuel name link ifdata d ≡ err ms → AreMessages ms)
  unfolding get_symbol_info
  get_symbol_info_lem fuel name link ifdata d =
      let o = get_symbol_name_from_ifdata ifdata in
      (
        λ s h. elim (first_attempt-ok _ _ _ s h) [
          | inl by_link ↦ inl (link_attempt-ok fuel link d s by_link)
          | inr (inl ((m, no_link), by_ifdata)) ↦
              inr (
                inl (link_attempt-LinkFails fuel link d m no_link, name_attempt-ok o d s by_ifdata))
          | inr (inr (no_link, (m, no_ifdata), by_name)) ↦
              let (unlinked, own) =
                own_name d link name s (name_attempt-ok (unless_linked link name) d s by_name) in
              inr (inr (unlinked, name_attempt-HasNoSymbol o d m no_ifdata, own))
        ],
        λ ms h.
            first_attempt-err _ _ _ ms h (link_attempt-err fuel link d ms) (name_attempt-err o d ms)
              (name_attempt-err (unless_linked link name) d ms) (third_made fuel link name d),
      )
