-- ===== src/Main.antt =====
-- app/main.py: the application around the routers. Starlette's headers and SQLAlchemy's `create_all` are
-- parameters.
pub mod Requests
mod Tests
use text.Mathlib.Text.{◌==◌ as str_eq}
use what_a_secure_app_should.Base.{
  ℕ, Bool, ◌||◌, Option, none, some, String, List, [], ◌∷◌, if◌then◌else◌,
}
use what_a_secure_app_should.Base.Str.{is_empty}
use what_a_secure_app_should.Base.Outcome.{Result, ok}
use what_a_secure_app_should.Core.Config.{Settings}
use what_a_secure_app_should.Core.Metrics.{Metrics, snapshot}
use what_a_secure_app_should.Db.{Db, User}
use what_a_secure_app_should.Api.{Web, ◌>>=◌}
use what_a_secure_app_should.Api.Auth.{Server}
use what_a_secure_app_should.Api.Admin.{require_admin_user}
use what_a_secure_app_should.Api.Access.{as_user}

-- The headers of a message, by `get` and by assignment to an item.
abbrev pub Headers : Type 0
Headers = List (String × String)

pub record Starlette : Type 0 where
  pub get : String → Headers → Option String
  pub set : String → String → Headers → Headers

pub record HttpRequest : Type 0 where
  pub headers : Headers
  -- `request.state.request_id`
  pub request_id : Option String

pub record HttpResponse : Type 0 where
  pub status_code : ℕ
  pub headers : Headers
  pub body : String

-- `init_db()`
abbrev pub init_db : (Db → Db) → Web → Web
init_db create_all w = record w { durable = create_all w.durable }

-- `lifespan`, up to its `yield`
unfoldable pub lifespan : Settings → (Db → Db) → Web → Web
lifespan cfg create_all w =
    if str_eq cfg.app_env "local" || str_eq cfg.app_env "test" then init_db create_all w else w

-- `request.headers.get("X-Request-ID") or str(uuid.uuid4())`
abbrev pub request_id_of : Option String → String → String
request_id_of none drawn = drawn
request_id_of (some given) drawn = if is_empty given then drawn else given

unfoldable pub request_id_middleware :
    Starlette
    → String
    → (HttpRequest → Web → Result HttpResponse × Web)
    → HttpRequest
    → Web
    → Result HttpResponse × Web
request_id_middleware star drawn call_next request w =
    let req_id = request_id_of (star.get "X-Request-ID" request.headers) drawn in
    call_next (record request { request_id = some req_id }) w >>= λ response w.
    (ok (record response { headers = star.set "X-Request-ID" req_id response.headers }), w)

abbrev pub health_live : List (String × String)
health_live = ("status", "live") ∷ []

abbrev pub health_ready : List (String × String)
health_ready = ("status", "ready") ∷ []

-- For an actor, behind `require_admin_user`.
abbrev pub metrics_for : User → Web → Result Metrics × Web
metrics_for actor w = require_admin_user actor w >>= λ _ w.
    let (copy, counters) = snapshot w.counters in (ok copy, record w { counters = counters })

unfoldable pub get_metrics :
    Server → (String → String) → ℕ → Option String → Web → Result Metrics × Web
get_metrics srv lower instant header = as_user srv lower instant header metrics_for
