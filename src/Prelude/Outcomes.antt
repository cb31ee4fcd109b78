-- ===== src/Prelude/Outcomes.antt =====
-- What a Rust function can do: return, fail with an error, or panic. A model on fuel can also run
-- out of it.
use mathlib.Core.List.{List, [], ◌∷◌}
use mathlib.Core.Option.{Option, none, some}
use mathlib.Core.Path.{◌≡◌, refl}

pub data Outcome {ℓ} (E : Type 0) (A : Type ℓ) : Type ℓ where
  ok : A → Outcome E A
  err : E → Outcome E A
  panic : Outcome E A
  out_of_fuel : Outcome E A

infixl 5 ◌>>=◌
abbrev pub ◌>>=◌ {ℓ κ} :
    {Error : Type 0} {Value : Type ℓ} {Next : Type κ}
    → Outcome Error Value
    → (Value → Outcome Error Next)
    → Outcome Error Next
out_of_fuel >>= next_run = out_of_fuel
panic >>= next_run = panic
err failure >>= next_run = err failure
ok value >>= next_run = next_run value

-- Inversion of a successful bind.
pub >>=-eq-ok {ℓ κ} :
    {Error : Type 0} {Value : Type ℓ} {Next : Type κ} (run : Outcome Error Value)
    (next_run : Value → Outcome Error Next) {result : Next}
    → (run >>= next_run) ≡ ok result
    → (value : Value) × (run ≡ ok value) × (next_run value ≡ ok result)
>>=-eq-ok out_of_fuel next_run h = cc
>>=-eq-ok panic next_run h = cc
>>=-eq-ok (err failure) next_run h = cc
>>=-eq-ok (ok value) next_run h = (value, refl, h)

-- A step of an iterator has returned: its item comes first, and then what the rest yields.
abbrev pub gather {ℓ} :
    {E : Type 0} {A S : Type ℓ} → (S → Outcome E (List A)) → Option A × S → Outcome E (List A)
gather rest (none, s) = ok []
gather rest (some a, s) = rest s >>= λ as'. ok (a ∷ as')

pub gather-eq-ok {ℓ} :
    {E : Type 0} {A : Type ℓ} (m : Outcome E (List A)) (a b : A) (bs : List A)
    → (m >>= λ as'. ok (a ∷ as')) ≡ ok (b ∷ bs)
    → (a ≡ b) × (m ≡ ok bs)
gather-eq-ok (ok as') a b bs h = (cc, cc)
gather-eq-ok (err e) a b bs h = cc
gather-eq-ok panic a b bs h = cc
gather-eq-ok out_of_fuel a b bs h = cc
