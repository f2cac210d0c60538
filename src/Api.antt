-- ===== src/Api.antt =====
-- app/api/v1: the handlers of the routes. A handler takes the state of the application and returns its
-- result, or what it raises, beside the state that it leaves. `durable` is what the database has
-- committed, `view` is what the session of the request sees (app/db/session.py, `autoflush=False`
-- and `expire_on_commit=False`), `max_image_pixels` is Pillow's global `Image.MAX_IMAGE_PIXELS`.
pub mod Jobs
pub mod Auth
pub mod Admin
pub mod Access
pub mod Integrity
use what_a_secure_app_should.Base.{ℕ, Option, String, List, [], ◌∷◌, ◌++◌, ◌==◌, map, if◌then◌else◌}
use what_a_secure_app_should.Base.Outcome.{Exception, Result, ok, err, http_exception}
use what_a_secure_app_should.Core.Metrics.{Metrics, increment}
use what_a_secure_app_should.Db.{Db}

pub record Web : Type 0 where
  pub durable : Db
  pub view : Db
  pub counters : Metrics
  pub max_image_pixels : ℕ

-- Python's `uuid.UUID(text)`, none where it raises ValueError, and `str(id)`.
pub record Uuids : Type 0 where
  pub parse : String → Option ℕ
  pub print : ℕ → String

-- `metrics.increment(name)`
abbrev pub count : String → Web → Web
count name w = record w { counters = increment name w.counters }

-- `db.commit()`, the flush having succeeded.
unfoldable pub commit : Web → Web
commit w = record w { durable = w.view }

-- A call inside a handler: what it raises ends the handler.
infixl 5 ◌>>=◌
abbrev pub ◌>>=◌ {ℓ κ} :
    {A : Type ℓ} {B : Type κ} → Result A × Web → (A → Web → Result B × Web) → Result B × Web
(ok a, w) >>= f = f a w
(err e, w) >>= f = (err e, w)

-- `get_db` around a handler: the session starts at the committed state, and what was not committed
-- is lost when it closes.
unfoldable pub serve {ℓ} : {A : Type ℓ} → (Web → Result A × Web) → Web → Result A × Web
serve handler w =
    let (r, w') = handler (record w { view = w.durable }) in (r, record w' { view = w'.durable })

abbrev pub not_found : Exception
not_found = http_exception 404 "Not found"
