-- ===== src/Core/Tests.antt =====
-- The counters after two failed logins.
use what_a_secure_app_should.Base.{◌≡◌, refl, [], ◌∷◌}
use what_a_secure_app_should.Core.Metrics.{
  Metrics, increment_by, increment, get, snapshot, login_failure, count_of,
}

abbrev two_failures : Metrics
two_failures = increment login_failure (increment login_failure [])

two_counted : snapshot two_failures ≡ ((login_failure, 2) ∷ [], (login_failure, 2) ∷ [])
unfolding snapshot increment increment_by
two_counted = refl

missing_read : get login_failure [] ≡ (0, (login_failure, 0) ∷ [])
unfolding get count_of increment_by
missing_read = refl
