-- ===== src/Schemas/Accepted.antt =====
-- app/schemas/auth.py: what an accepted registration is.
use text.Mathlib.Text.{◌==◌ as str_eq}
use text.Mathlib.TextEquality.{eq_iff}
use what_a_secure_app_should.Base.{
  ℕ, ◌≤◌, ◌≡◌, refl, ap, subst, ◌∙◌, sym, inl, inr, ◌↔◌, Bool, true, false, ◌&&◌, Bool-cases,
  String, List, [], ◌∷◌, ltb, leb, arith,
}
use what_a_secure_app_should.Base.Str.{str_length}
use what_a_secure_app_should.Base.Regex.{Splits, match_items, match_items_iff}
use what_a_secure_app_should.Base.Outcome.{Result, ok, err, ◌>>=◌, ◌>>◌}
use what_a_secure_app_should.Core.Config.{Settings}
use what_a_secure_app_should.Schemas.Fields.{HasOnly, HasOnly-of_only, only_of_HasOnly}
use what_a_secure_app_should.Schemas.{
  Body, require, only, field, email_pattern, normalized, valid_email, password_length,
  register_request, registration,
}

abbrev pub registration_fields : List String
registration_fields = "email" ∷ "password" ∷ "password_confirmation" ∷ []

-- A registration by its parts: no field but the three, an email that normalizes to the given one, which
-- splits at one `@` and a dot behind it, and a password within the bounds, given twice.
pub record IsRegistration (cfg : Settings) (lower : String → String) (body : Body)
    (email password : String) : Type 0 where
  pub known_fields : HasOnly registration_fields body
  pub typed : String
  pub has_email : field "email" body ≡ ok typed
  pub has_password : field "password" body ≡ ok password
  pub has_confirmation : field "password_confirmation" body ≡ ok password
  pub is_normalized : normalized lower typed ≡ email
  pub splits : Splits email_pattern email
  pub email_length : str_length email ≤ 320
  pub long_enough : cfg.password_min_length ≤ str_length password
  pub short_enough : str_length password ≤ cfg.password_max_length

-- To go on from a `do` block that succeeded: each step did.
after_bind {ℓ κ μ} :
    {A : Type ℓ} {B : Type κ} {C : Type μ} (m : Result A) (f : A → Result B) (b : B)
    → (m >>= f) ≡ ok b
    → ((a : A) → m ≡ ok a → f a ≡ ok b → C)
    → C
after_bind (ok a) f b h go = go a refl h
after_bind (err e) f b h go = absurd (ground arith)

after_require {κ μ} :
    {B : Type κ} {C : Type μ} (test : Bool) (rest : Result B) (b : B)
    → (require test >> rest) ≡ ok b
    → (test ≡ true → rest ≡ ok b → C)
    → C
after_require true rest b h go = go refl h
after_require false rest b h go = absurd (ground arith)

valid_email_inv :
    (lower : String → String) (text email : String)
    → valid_email lower text ≡ ok email
    → (normalized lower text ≡ email) × Splits email_pattern email × (str_length email ≤ 320)
unfolding valid_email
valid_email_inv lower text email h =
    elim (Bool-cases (match_items email_pattern (normalized lower text))) [
      | inr bad ↦ absurd (ground arith)
      | inl good ↦ elim (Bool-cases (ltb 320 (str_length (normalized lower text)))) [
        | inl long ↦ absurd (ground arith)
        | inr short ↦
            let e : normalized lower text ≡ email = ground arith in
            (
              e,
              (match_items_iff email_pattern email).0 (rw e at good),
              rw e at (within (str_length (normalized lower text)) short),
            )
      ]
    ]
  where
    within : (n : ℕ) → ltb 320 n ≡ false → n ≤ 320
    within n h = ground arith

-- What the validators have checked.
record Validated (cfg : Settings) (lower : String → String)
    (text secret confirmation email password : String) : Type 0 where
  same_password : secret ≡ password
  confirmed : confirmation ≡ password
  address : normalized lower text ≡ email
  matches : Splits email_pattern email
  address_length : str_length email ≤ 320
  bounded : password_length cfg password ≡ true

registration-Validated :
    (cfg : Settings) (lower : String → String) (text secret confirmation email password : String)
    → registration cfg lower text secret confirmation ≡ ok (email, password)
    → Validated cfg lower text secret confirmation email password
unfolding registration
registration-Validated cfg lower text secret confirmation email password h =
    after_bind (valid_email lower text) _ (email, password) h
      λ address valid h1.
        after_require (password_length cfg secret) _ (email, password) h1
          λ bounds h2.
            after_require (str_eq secret confirmation) _ (email, password) h2
              λ twice h3.
                let same_address : address ≡ email = cc h3 in
                let same_secret : secret ≡ password = cc h3 in
                let v = valid_email_inv lower text email (valid ∙ ap ok same_address) in
                record {
                  same_password = same_secret;
                  confirmed = sym ((eq_iff secret confirmation).0 twice) ∙ same_secret;
                  address = v.0;
                  matches = v.1;
                  address_length = v.2;
                  bounded = subst (λ p. password_length cfg p ≡ true) same_secret bounds;
                }

in_bounds :
    (cfg : Settings) (password : String)
    → password_length cfg password ≡ true
    → (cfg.password_min_length ≤ str_length password)
      × (str_length password ≤ cfg.password_max_length)
unfolding password_length
in_bounds cfg password h = ground arith

register_request-IsRegistration :
    (cfg : Settings) (lower : String → String) (body : Body) (email password : String)
    → register_request cfg lower body ≡ ok (email, password)
    → IsRegistration cfg lower body email password
unfolding register_request
register_request-IsRegistration cfg lower body email password h =
    after_require (only ("email" ∷ "password" ∷ "password_confirmation" ∷ []) body) _
      (email, password) h
      λ known h1.
        after_bind (field "email" body) _ (email, password) h1
          λ text e1 h2.
            after_bind (field "password" body) _ (email, password) h2
              λ secret e2 h3.
                after_bind (field "password_confirmation" body) _ (email, password) h3
                  λ again e3 h4.
                    let v = registration-Validated cfg lower text secret again email password h4 in
                    record {
                      known_fields = HasOnly-of_only registration_fields body known;
                      typed = text;
                      has_email = e1;
                      has_password = e2 ∙ ap ok v.same_password;
                      has_confirmation = e3 ∙ ap ok v.confirmed;
                      is_normalized = v.address;
                      splits = v.matches;
                      email_length = v.address_length;
                      long_enough = (in_bounds cfg password v.bounded).0;
                      short_enough = (in_bounds cfg password v.bounded).1;
                    }

-- An email by its parts is accepted.
valid_email_of :
    (lower : String → String) (text email : String)
    → normalized lower text ≡ email
    → Splits email_pattern email
    → str_length email ≤ 320
    → valid_email lower text ≡ ok email
unfolding valid_email
valid_email_of lower text email same splits short =
    rw (same, (match_items_iff email_pattern email).1 splits, within (str_length email) short) refl
  where
    within : (n : ℕ) → n ≤ 320 → ltb 320 n ≡ false
    within n h = ground arith

IsRegistration-register_request :
    (cfg : Settings) (lower : String → String) (body : Body) (email password : String)
    → IsRegistration cfg lower body email password
    → register_request cfg lower body ≡ ok (email, password)
unfolding register_request registration password_length
IsRegistration-register_request cfg lower body email password r =
    let bounds : (leb cfg.password_min_length (str_length password)
          && leb (str_length password) cfg.password_max_length)
        ≡ true =
      ground (arith, r.long_enough, r.short_enough) in
    rw
      (
        only_of_HasOnly registration_fields body r.known_fields,
        r.has_email,
        r.has_password,
        r.has_confirmation,
        valid_email_of lower r.typed email r.is_normalized r.splits r.email_length,
        bounds,
        (eq_iff password password).1 refl,
      )
      refl

-- RegisterRequest accepts a body with an email and a password exactly if the body has no field
-- but the three, its email normalizes to that one, which has at most 320 characters and splits
-- at one `@` and at a dot behind it into words without `@` and white space, and the password is
-- given twice and its length is within the bounds of the settings.
pub register_request_iff :
    (cfg : Settings) (lower : String → String) (body : Body) (email password : String)
    → (register_request cfg lower body ≡ ok (email, password))
      ↔ IsRegistration cfg lower body email password
register_request_iff cfg lower body email password = (
  register_request-IsRegistration cfg lower body email password,
  IsRegistration-register_request cfg lower body email password,
)
