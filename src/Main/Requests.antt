-- ===== src/Main/Requests.antt =====
-- What the middleware does to a request and to its response, and who reads the counters.
use text.Mathlib.Text.{◌==◌ as str_eq}
use what_a_secure_app_should.Base.{
  ℕ, ◌≡◌, refl, ◌⊎◌, inl, inr, true, false, Bool-cases, Option, none, some, String, List,
}
use what_a_secure_app_should.Base.Str.{is_empty}
use what_a_secure_app_should.Base.Outcome.{Exception, Result, ok, err}
use what_a_secure_app_should.Core.Metrics.{Metrics, snapshot}
use what_a_secure_app_should.Db.{User, role_admin}
use what_a_secure_app_should.Api.{Web, serve, ◌>>=◌}
use what_a_secure_app_should.Api.Auth.{Server}
use what_a_secure_app_should.Api.Admin.{require_admin_user}
use what_a_secure_app_should.Api.Access.Tokens.{Authenticated}
use what_a_secure_app_should.Api.Access.Administered.{as_user_lem}
use what_a_secure_app_should.Main.{
  Starlette, HttpRequest, HttpResponse, request_id_of, request_id_middleware, metrics_for,
  get_metrics,
}

-- What is relied on of Starlette: an item that was assigned is what `get` gives.
pub record StarletteLaws (star : Starlette) : Type 0 where
  pub get-set :
      (name value : String) (headers : List (String × String))
      → star.get name (star.set name value headers) ≡ some value

-- The id that the client chose, if it sent one that is not empty, and the drawn one otherwise.
abbrev pub Chosen : Option String → String → String → Type 0
Chosen sent drawn id =
    ((sent ≡ some id) × (is_empty id ≡ false)) ⊎ ((id ≡ drawn) × ((sent ≡ none) ⊎ (sent ≡ some "")))

request_id_of-Chosen :
    (sent : Option String) (drawn : String) → Chosen sent drawn (request_id_of sent drawn)
request_id_of-Chosen none drawn = inr (refl, inl refl)
request_id_of-Chosen (some String.[]) drawn = inr (refl, inr refl)
request_id_of-Chosen (some (String.◌∷◌ c s)) drawn = inl (refl, refl)

-- What the middleware makes of what `call_next` answered.
abbrev pub Echoes :
    Starlette → String → Result HttpResponse × Web → Result HttpResponse × Web → Type 0
Echoes star id (inner, after) (r, w') =
    (w' ≡ after)
    × (((e : Exception) × (inner ≡ err e) × (r ≡ err e))
        ⊎ ((response : HttpResponse) × (sent : HttpResponse) × (inner ≡ ok response)
            × (r ≡ ok sent)
            × (star.get "X-Request-ID" sent.headers ≡ some id)
            × (sent.status_code ≡ response.status_code)
            × (sent.body ≡ response.body)))

echoed :
    (star : Starlette) (id : String) (inner : Result HttpResponse × Web)
    → StarletteLaws star
    → Echoes star id inner (
        inner >>= λ response w.
        (ok (record response { headers = star.set "X-Request-ID" id response.headers }), w))
echoed star id (err e, w) laws = (refl, inl (e, refl, refl))
echoed star id (ok response, w) laws = (
  refl,
  inr (
    response,
    record response { headers = star.set "X-Request-ID" id response.headers },
    refl,
    refl,
    laws.get-set "X-Request-ID" id response.headers,
    refl,
    refl,
  ),
)

-- The middleware chooses the id of the request, the one that the client sent if it is not empty
-- and else the drawn one, calls the application once with this id, and returns its error, or
-- its status and body with this id as header. Assumed: a header that was assigned is the one
-- that `get` gives.
pub request_id_middleware_lem :
    (star : Starlette) (drawn : String) (call_next : HttpRequest → Web → Result HttpResponse × Web)
    (request : HttpRequest) (w : Web)
    → StarletteLaws star
    → (id : String) × Chosen (star.get "X-Request-ID" request.headers) drawn id
      × Echoes star id
          (call_next (record request { request_id = some id }) w)
          (request_id_middleware star drawn call_next request w)
unfolding request_id_middleware
request_id_middleware_lem star drawn call_next request w laws =
    let id = request_id_of (star.get "X-Request-ID" request.headers) drawn in
    (
      id,
      request_id_of-Chosen (star.get "X-Request-ID" request.headers) drawn,
      echoed star id (call_next (record request { request_id = some id }) w) laws,
    )

-- The counters for an administrator alone.
abbrev pub CountersFor :
    Server → (String → String) → ℕ → Option String → Web → Result Metrics × Web → Type 0
CountersFor srv lower instant header w (r, w') =
    (w'.durable ≡ w.durable)
    × (((e : Exception) × (r ≡ err e))
        ⊎ ((actor : User) × Authenticated srv lower instant header w actor
            × (str_eq actor.role role_admin ≡ true)
            × (r ≡ ok w.counters)
            × (w'.counters ≡ w.counters)))

counters_for :
    (srv : Server) (lower : String → String) (instant : ℕ) (header : Option String) (actor : User)
    (w : Web)
    → Authenticated srv lower instant header w actor
    → CountersFor srv lower instant header w (metrics_for actor w)
unfolding require_admin_user snapshot
counters_for srv lower instant header actor w someone =
    elim (Bool-cases (str_eq actor.role role_admin)) [
      | inr other ↦ rw other (refl, inl (_, refl))
      | inl admin ↦ rw admin (refl, inr (actor, someone, admin, refl, refl))
    ]

-- A served `get_metrics` commits nothing, and where it answers, the bearer token of the header
-- of that request authenticates, over the committed state, an active administrator, and the
-- answer is the counters, which stay as they were.
pub get_metrics-CountersFor :
    (srv : Server) (lower : String → String) (instant : ℕ) (header : Option String) (w : Web)
    → CountersFor srv lower instant header
        (record w { view = w.durable })
        (serve (get_metrics srv lower instant header) w)
unfolding serve get_metrics
get_metrics-CountersFor srv lower instant header w =
    let w0 : Web = record w { view = w.durable } in
    as_user_lem
      (λ (r, w'). CountersFor srv lower instant header w0 (r, record w' { view = w'.durable })) srv
      lower instant header metrics_for w0 (λ e. (refl, inl (e, refl)))
      λ actor someone. counters_for srv lower instant header actor w0 someone
