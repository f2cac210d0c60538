-- ===== src/Auth/Passwords.antt =====
-- app/auth/passwords.py: the calls of argon2's PasswordHasher, which is a parameter.
use what_a_secure_app_should.Base.{ℕ, String, Bool, false}
use what_a_secure_app_should.Base.Outcome.{
  Exception, Result, ok, err, verification_error, invalid_hash_error, catch,
}

pub record PasswordHasher : Type 0 where
  -- The number stands for the salt that a call draws.
  pub hash : ℕ → String → String
  pub verify : String → String → Result Bool
  pub check_needs_rehash : String → Result Bool

unfoldable pub hash_password : PasswordHasher → ℕ → String → String
hash_password hasher salt password = hasher.hash salt password

-- The `except` clause; VerifyMismatchError is a VerificationError.
abbrev pub as_mismatch : Exception → Result Bool
as_mismatch verification_error = ok false
as_mismatch invalid_hash_error = ok false
as_mismatch e = err e

unfoldable pub verify_password : PasswordHasher → String → String → Result Bool
verify_password hasher password_hash password =
    catch (hasher.verify password_hash password) as_mismatch

-- The `except` clause of `needs_rehash`.
abbrev pub as_current : Exception → Result Bool
as_current invalid_hash_error = ok false
as_current e = err e

unfoldable pub needs_rehash : PasswordHasher → String → Result Bool
needs_rehash hasher password_hash = catch (hasher.check_needs_rehash password_hash) as_current
