-- ===== src/Base/Result.antt =====
-- A Go function that returns `(T, error)`: the value, or the error.
use Prim.Native.String.{String}
use mathlib.Core.Path.{◌≡◌, refl}
use mathlib.Core.Logic.{◌⊎◌, inl, inr}
use mathlib.Core.Bool.{Bool, true, false}

-- The sentinel errors that `errors.Is` looks for.
pub data Sentinel : Type 0 where
  codeup_ignored projex_ignored flow_ignored duplicate_event : Sentinel

-- `plain` is an error of its own; `wrapped` is one that wraps a sentinel with `%w`.
pub data Error : Type 0 where
  plain : String → Error
  wrapped : Sentinel → String → Error

-- `err.Error()`
abbrev pub error_text : Error → String
error_text (plain s) = s
error_text (wrapped _ s) = s

abbrev pub same_sentinel : Sentinel → Sentinel → Bool
same_sentinel Sentinel.codeup_ignored Sentinel.codeup_ignored = true
same_sentinel Sentinel.projex_ignored Sentinel.projex_ignored = true
same_sentinel Sentinel.flow_ignored Sentinel.flow_ignored = true
same_sentinel Sentinel.duplicate_event Sentinel.duplicate_event = true
same_sentinel _ _ = false

-- `errors.Is(err, sentinel)`
abbrev pub errors_is : Error → Sentinel → Bool
errors_is (plain _) s = false
errors_is (wrapped t _) s = same_sentinel t s

pub data Result {ℓ} (A : Type ℓ) : Type ℓ where
  ok : A → Result A
  err : Error → Result A

infixl 5 ◌>>=◌
abbrev pub ◌>>=◌ {ℓ κ} : {A : Type ℓ} {B : Type κ} → Result A → (A → Result B) → Result B
ok a >>= f = f a
err e >>= f = err e

pub Result-cases {ℓ} :
    {A : Type ℓ} (r : Result A) → ((a : A) × (r ≡ ok a)) ⊎ ((e : Error) × (r ≡ err e))
Result-cases (ok a) = inl (a, refl)
Result-cases (err e) = inr (e, refl)
