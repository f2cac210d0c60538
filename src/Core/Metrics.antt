-- ===== src/Core/Metrics.antt =====
-- app/core/metrics.py: the counters, a `defaultdict(int)`. The lock makes each call one step.
use text.Mathlib.Text.{◌==◌ as str_eq}
use text.Mathlib.TextEquality.{eq_iff}
use what_a_secure_app_should.Base.{ℕ, ◌+◌, ◌≡◌, String, List, [], ◌∷◌, arith, if◌then◌else◌}

abbrev pub Metrics : Type 0
Metrics = List (String × ℕ)

abbrev pub login_failure : String
login_failure = "login_failure_count"

abbrev pub authorization_denial : String
authorization_denial = "authorization_denial_count"

abbrev pub rate_limit_trigger : String
rate_limit_trigger = "rate_limit_trigger_count"

abbrev pub refresh_replay : String
refresh_replay = "refresh_token_replay_count"

abbrev pub invalid_upload : String
invalid_upload = "invalid_upload_count"

abbrev pub crypto_auth_failure : String
crypto_auth_failure = "crypto_authentication_failure_count"

abbrev pub embed_job : String
embed_job = "embed_job_count"

abbrev pub extract_job : String
extract_job = "extract_job_count"

abbrev pub verify_job : String
verify_job = "verify_job_count"

-- `_counters[name]`: a name that is not there counts 0.
unfoldable pub count_of : Metrics → String → ℕ
count_of [] name = 0
count_of ((key, n) ∷ counters) name = if str_eq key name then n else count_of counters name

-- `_counters[name] += amount`
unfoldable pub increment_by : String → ℕ → Metrics → Metrics
increment_by name amount [] = (name, amount) ∷ []
increment_by name amount ((key, n) ∷ counters) =
    if str_eq key name
    then (key, n + amount) ∷ counters
    else (key, n) ∷ increment_by name amount counters

unfoldable pub increment : String → Metrics → Metrics
unfolding increment_by
increment name = increment_by name 1

-- `get`: the read itself enters a missing name, with 0.
unfoldable pub get : String → Metrics → ℕ × Metrics
unfolding count_of increment_by
get name counters = (count_of counters name, increment_by name 0 counters)

-- `snapshot`: a copy of the dictionary, and the dictionary as it was.
unfoldable pub snapshot : Metrics → Metrics × Metrics
snapshot counters = (counters, counters)

-- `reset`
unfoldable pub reset : Metrics → Metrics
reset counters = []

-- Incrementing one counter adds the amount to it, from 0 if it was not there, and changes no
-- other counter.
pub count_of-increment_by :
    (name other : String) (amount : ℕ) (counters : Metrics)
    → count_of (increment_by name amount counters) other
      ≡ (if str_eq name other then count_of counters other + amount else count_of counters other)
unfolding count_of increment_by
count_of-increment_by name other amount [] = ground arith
count_of-increment_by name other amount ((key, n) ∷ counters) = ground (
  arith,
  eq_iff key name,
  eq_iff key other,
  eq_iff name other,
  count_of-increment_by name other amount counters,
)
