-- ===== src/Auth/Permissions.antt =====
-- app/auth/permissions.py: the checks of an actor, with the counters that they leave.
use text.Mathlib.Text.{◌==◌ as str_eq}
use what_a_secure_app_should.Base.{ℕ, Bool, not, ◌==◌, if◌then◌else◌}
use what_a_secure_app_should.Base.Outcome.{Result, ok, err, authorization_error}
use what_a_secure_app_should.Core.Metrics.{Metrics, increment, authorization_denial}
use what_a_secure_app_should.Db.{User, role_admin}

unfoldable pub is_admin : User → Bool
is_admin user = str_eq user.role role_admin

-- Only the owner; an administrator is no exception.
unfoldable pub require_owner : User → ℕ → Metrics → Result (Unit {0}) × Metrics
require_owner actor resource_owner_id counters =
    if not (actor.id == resource_owner_id)
    then (
      err (authorization_error "not the resource owner"),
      increment authorization_denial counters,
    )
    else (ok tt, counters)

unfoldable pub require_admin : User → Metrics → Result (Unit {0}) × Metrics
unfolding is_admin
require_admin actor counters =
    if not (is_admin actor)
    then (err (authorization_error "admin role required"), increment authorization_denial counters)
    else (ok tt, counters)
