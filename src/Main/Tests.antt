-- ===== src/Main/Tests.antt =====
-- The theorems on requests, applied to a request that sends its own id, and to one of an administrator.
use text.Mathlib.Text.{◌==◌ as str_eq}
use text.Mathlib.TextEquality.{eq_iff}
use what_a_secure_app_should.Base.{refl, Option, none, some, String, [], ◌∷◌, if◌then◌else◌}
use what_a_secure_app_should.Base.Outcome.{Result, ok}
use what_a_secure_app_should.Api.{Web, serve}
use what_a_secure_app_should.Api.Access.Sample.{lower, server, app, staffed}
use what_a_secure_app_should.Main.{
  Headers, Starlette, HttpRequest, HttpResponse, request_id_middleware, get_metrics,
}
use what_a_secure_app_should.Main.Requests.{
  StarletteLaws, Chosen, Echoes, CountersFor, request_id_middleware_lem, get_metrics-CountersFor,
}

abbrev lookup : String → Headers → Option String
lookup name [] = none
lookup name ((key, value) ∷ headers) = if str_eq key name then some value else lookup name headers

abbrev starlette : Starlette
starlette = record { get = lookup; set = λ name value headers. (name, value) ∷ headers }

starlette_laws : StarletteLaws starlette
starlette_laws = record { get-set = λ name value headers. rw ((eq_iff name name).1 refl) refl }

abbrev request : HttpRequest
request = record { headers = ("X-Request-ID", "mine") ∷ []; request_id = none }

-- It answers every request.
abbrev next_app : HttpRequest → Web → Result HttpResponse × Web
next_app asked w = (ok (record { status_code = 200; headers = []; body = "body" }), w)

request_id_middleware_example :
    (id : String) × Chosen (starlette.get "X-Request-ID" request.headers) "drawn" id
    × Echoes starlette id
        (next_app (record request { request_id = some id }) app)
        (request_id_middleware starlette "drawn" next_app request app)
request_id_middleware_example =
    request_id_middleware_lem starlette "drawn" next_app request app starlette_laws

get_metrics-CountersFor_example :
    CountersFor server lower 100
      (some "Bearer other")
      (record staffed { view = staffed.durable })
      (serve (get_metrics server lower 100 (some "Bearer other")) staffed)
get_metrics-CountersFor_example =
    get_metrics-CountersFor server lower 100 (some "Bearer other") staffed
