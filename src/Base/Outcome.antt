-- ===== src/Base/Outcome.antt =====
-- What a Python call ends with: a value, or an exception. The exceptions are those that the
-- modelled code raises or names in an `except`; `other` is any further exception of a package.
use Prim.Native.Nat.{ℕ}
use Prim.Native.String.{String}
use mathlib.Core.Path.{◌≡◌, refl}
use mathlib.Core.Logic.{◌⊎◌, inl, inr}

pub data Exception : Type 0 where
  value_error struct_error index_error memory_error invalid_tag : Exception
  os_error syntax_error bomb_error integrity_error verification_error invalid_hash_error
        pyjwt_error :
      Exception
  envelope_error decryption_error capacity_error extraction_error : String → Exception
  file_validation_error : String → String → Exception
  authorization_error replay_detected invalid_refresh_token token_error : String → Exception
  http_exception : ℕ → String → Exception
  other : ℕ → Exception

pub data Result {ℓ} (A : Type ℓ) : Type ℓ where
  ok : A → Result A
  err : Exception → Result A

-- A call, and what follows it if it does not raise.
infixl 5 ◌>>=◌
abbrev pub ◌>>=◌ {ℓ κ} :
    {Value : Type ℓ} {Next : Type κ} → Result Value → (Value → Result Next) → Result Next
ok value >>= follow = follow value
err raised >>= follow = err raised

-- The same, for a call whose value is None.
infixl 5 ◌>>◌
abbrev pub ◌>>◌ {ℓ} : {Next : Type ℓ} → Result (Unit {0}) → Result Next → Result Next
first >> second = first >>= λ none_value. second

-- `try: m  except ...: h`, the handler deciding by the exception what to do.
abbrev pub catch {ℓ} : {A : Type ℓ} → Result A → (Exception → Result A) → Result A
catch (ok a) h = ok a
catch (err e) h = h e

pub Result-cases {ℓ} :
    {A : Type ℓ} (r : Result A) → ((a : A) × (r ≡ ok a)) ⊎ ((e : Exception) × (r ≡ err e))
Result-cases (ok a) = inl (a, refl)
Result-cases (err e) = inr (e, refl)
