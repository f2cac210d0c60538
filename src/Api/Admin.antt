-- ===== src/Api/Admin.antt =====
-- app/api/v1/admin.py: the routes of administrators. Each is behind `require_admin_user`
-- (app/auth/dependencies.py), whose argument `actor` is what `get_current_user` resolved.
pub mod Disabling
mod Tests
use text.Mathlib.Text.{◌==◌ as str_eq}
use what_a_secure_app_should.Base.{
  ℕ, not, ◌||◌, Option, none, some, String, List, ◌==◌, map, find_first, if◌then◌else◌,
}
use what_a_secure_app_should.Base.Outcome.{Exception, Result, ok, err, http_exception}
use what_a_secure_app_should.Core.Config.{Clock}
use what_a_secure_app_should.Core.Metrics.{authorization_denial}
use what_a_secure_app_should.Db.{User, ProcessingJob, role_admin, status_active, status_disabled}
use what_a_secure_app_should.Api.{Web, Uuids, count, commit, ◌>>=◌, not_found}
use what_a_secure_app_should.Api.Auth.{update_user, with_users}

abbrev pub admin_required : Exception
admin_required = http_exception 403 "Admin role required"

unfoldable pub require_admin_user : User → Web → Result User × Web
require_admin_user actor w =
    if not (str_eq actor.role role_admin)
    then (err admin_required, count authorization_denial w)
    else (ok actor, w)

-- The id, the email, the role and the status.
abbrev pub user_entry : Uuids → User → String × String × String × String
user_entry uuids u = (uuids.print u.id, u.email, u.role, u.status)

unfoldable pub list_users :
    Uuids → User → Web → Result (List (String × String × String × String)) × Web
list_users uuids actor w =
    require_admin_user actor w >>= λ _ w. (ok (map (user_entry uuids) w.view.users), w)

-- The row with its new status; `updated_at` is set by the flush of a changed row.
abbrev pub with_status : Clock → String → User → User
with_status now new_status user =
    if str_eq user.status new_status
    then user
    else record user { status = new_status; updated_at = now 0 }

-- After the target was looked up; the response is its id and its status.
abbrev pub status_set : Uuids → Clock → String → Web → Option User → Result (String × String) × Web
status_set uuids now new_status w none = (err not_found, w)
status_set uuids now new_status w (some user) = (
  ok (uuids.print user.id, new_status),
  commit (with_users w (update_user (with_status now new_status user) w.view.users)),
)

abbrev pub status_of : Uuids → Clock → String → Web → Option ℕ → Result (String × String) × Web
status_of uuids now new_status w none = (err not_found, w)
status_of uuids now new_status w (some uid) =
    status_set uuids now new_status w (find_first (λ u. u.id == uid) w.view.users)

unfoldable pub set_status :
    Uuids → Clock → String → String → User → Web → Result (String × String) × Web
set_status uuids now user_id new_status actor w = require_admin_user actor w >>= λ _ w.
    if not (str_eq new_status status_active || str_eq new_status status_disabled)
    then (err (http_exception 400 "Invalid status"), w)
    else status_of uuids now new_status w (uuids.parse user_id)

-- The id, the owner, the type, the status and the creation of a job; the instant stands for its ISO
-- text.
abbrev pub job_entry : Uuids → ProcessingJob → String × String × String × String × ℕ
job_entry uuids j = (uuids.print j.id, uuids.print j.user_id, j.job_type, j.status, j.created_at)

unfoldable pub list_all_jobs :
    Uuids → User → Web → Result (List (String × String × String × String × ℕ)) × Web
list_all_jobs uuids actor w =
    require_admin_user actor w >>= λ _ w. (ok (map (job_entry uuids) w.view.jobs), w)
