-- ===== src/Db.antt =====
-- app/db/models.py: the rows, and the tables as lists of rows. A query is a selection from a table;
-- what a handler changes is its session's view, which `db.commit()` makes durable.
pub mod Rows
pub mod Engine
use text.Mathlib.Text.{◌==◌ as str_eq}
use what_a_secure_app_should.Base.{
  ℕ, Bool, false, Option, none, some, String, List, [], ◌∷◌, ◌++◌, ◌==◌, ◌||◌, map, count_where,
  if◌then◌else◌,
}
use what_a_secure_app_should.Base.Outcome.{Result, ok, err, integrity_error}

abbrev pub role_user : String
role_user = "user"

abbrev pub role_admin : String
role_admin = "admin"

abbrev pub status_active : String
status_active = "active"

abbrev pub status_disabled : String
status_disabled = "disabled"

abbrev pub job_embed : String
job_embed = "EMBED"

abbrev pub job_extract : String
job_extract = "EXTRACT"

abbrev pub job_verify : String
job_verify = "VERIFY"

abbrev pub job_pending : String
job_pending = "PENDING"

abbrev pub job_processing : String
job_processing = "PROCESSING"

abbrev pub job_failed : String
job_failed = "FAILED"

abbrev pub job_expired : String
job_expired = "EXPIRED"

abbrev pub job_deleted : String
job_deleted = "DELETED"

abbrev pub job_succeeded : String
job_succeeded = "SUCCEEDED"

pub record User : Type 0 where
  pub id : ℕ
  pub email : String
  pub password_hash : String
  pub role : String
  pub status : String
  pub mfa_enabled : Bool
  pub mfa_secret_encrypted : Option String
  pub created_at : ℕ
  pub updated_at : ℕ
  pub last_login_at : Option ℕ
  pub failed_login_count : ℕ
  pub locked_until : Option ℕ

pub record Session : Type 0 where
  pub id : ℕ
  pub user_id : ℕ
  pub refresh_token_hash : String
  pub session_family_id : ℕ
  pub issued_at : ℕ
  pub expires_at : ℕ
  pub revoked_at : Option ℕ
  pub replaced_by_session_id : Option ℕ
  pub user_agent_summary : Option String
  pub source_ip_hash : Option String

pub record ProcessingJob : Type 0 where
  pub id : ℕ
  pub user_id : ℕ
  pub job_type : String
  pub status : String
  pub source_filename_hash : Option String
  pub input_size_bytes : Option ℕ
  pub output_size_bytes : Option ℕ
  pub payload_size_bytes : Option ℕ
  pub capacity_utilization : Option ℕ
  pub algorithm_version : Option ℕ
  pub artifact_storage_key : Option String
  pub artifact_checksum : Option String
  pub processing_time_ms : Option ℕ
  pub created_at : ℕ
  pub expires_at : Option ℕ
  pub deleted_at : Option ℕ
  pub failure_category : Option String

pub record Db : Type 0 where
  pub users : List User
  pub sessions : List Session
  pub jobs : List ProcessingJob

abbrev pub empty_db : Db
empty_db = record { users = []; sessions = []; jobs = [] }

abbrev pub is_none {ℓ} : {A : Type ℓ} → Option A → Bool
is_none none = Bool.true
is_none (some _) = false

-- `revoked_at is None`
abbrev pub is_active : Session → Bool
is_active s = is_none s.revoked_at

-- Whether a row has the primary key, or the unique token hash, of another.
abbrev pub clashes : Session → Session → Bool
clashes new s = (s.id == new.id) || str_eq s.refresh_token_hash new.refresh_token_hash

abbrev pub any_session : (Session → Bool) → List Session → Bool
any_session p [] = false
any_session p (s ∷ rows) = p s || any_session p rows

-- `db.add(session)` and `db.flush()`: the constraints of the table refuse a clash.
unfoldable pub add_session : Session → List Session → Result (List Session)
add_session new rows =
    if any_session (clashes new) rows then err integrity_error else ok (rows ++ (new ∷ []))

-- The flush of changes to one row: the row of that primary key.
unfoldable pub update_session : Session → List Session → List Session
update_session changed [] = []
update_session changed (s ∷ rows) =
    (if s.id == changed.id then changed else s) ∷ update_session changed rows
