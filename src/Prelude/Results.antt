-- ===== src/Prelude/Results.antt =====
-- Rust's `Result`, its `?` as bind, and `map_err` as the conversion that `?` makes.
use mathlib.Core.Path.{◌≡◌, refl}
use mathlib.Core.Bool.{Bool, true, false}
use mathlib.Core.Logic.{◌⊎◌, inl, inr}
use mathlib.Core.Option.{Option, none, some}

-- The error type comes first, as the one that a chain of calls keeps.
pub data Result {ℓe ℓv} (Error : Type ℓe) (Value : Type ℓv) : Type (ℓv ⊔ ℓe) where
  err : Error → Result Error Value
  ok : Value → Result Error Value

-- An early `return Err(e)` under a test.
abbrev pub reject_if {ℓe} : {Error : Type ℓe} → Bool → Error → Result Error (Unit {0})
reject_if false problem = ok tt
reject_if true problem = err problem

-- `Option::ok_or`.
abbrev pub ok_or {ℓe ℓv} :
    {Error : Type ℓe} {Value : Type ℓv} → Option Value → Error → Result Error Value
ok_or (some value) problem = ok value
ok_or none problem = err problem

abbrev pub map_err {ℓe ℓv ℓd} :
    {Error : Type ℓe} {Value : Type ℓv} {Wrapped : Type ℓd}
    → (Error → Wrapped)
    → Result Error Value
    → Result Wrapped Value
map_err wrap (err problem) = err (wrap problem)
map_err wrap (ok value) = ok value

infixl 5 ◌>>=◌ ◌>>◌
abbrev pub ◌>>=◌ {ℓe ℓv ℓw} :
    {Error : Type ℓe} {Value : Type ℓv} {Next : Type ℓw}
    → Result Error Value
    → (Value → Result Error Next)
    → Result Error Next
err problem >>= next = err problem
ok value >>= next = next value

abbrev pub ◌>>◌ {ℓe ℓw} :
    {Error : Type ℓe} {Next : Type ℓw}
    → Result Error (Unit {0})
    → Result Error Next
    → Result Error Next
check >> rest = check >>= λ _. rest

-- If a chain of calls succeeds, its first call did, and the rest from what that returned.
pub >>=-eq-ok {ℓe ℓv ℓw} :
    {Error : Type ℓe} {Value : Type ℓv} {Next : Type ℓw} (first : Result Error Value)
    (next : Value → Result Error Next) {last : Next}
    → (first >>= next) ≡ ok last
    → (value : Value) × (first ≡ ok value) × (next value ≡ ok last)
>>=-eq-ok (err problem) next returned = cc
>>=-eq-ok (ok value) next returned = (value, refl, returned)

pub Result-cases {ℓe ℓv} :
    {Error : Type ℓe} {Value : Type ℓv} (r : Result Error Value)
    → ((problem : Error) × (r ≡ err problem)) ⊎ ((value : Value) × (r ≡ ok value))
Result-cases (err problem) = inl (problem, refl)
Result-cases (ok value) = inr (value, refl)
