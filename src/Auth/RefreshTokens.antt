-- ===== src/Auth/RefreshTokens.antt =====
-- app/auth/refresh_tokens.py: rotation, replay detection and revocation, over the table of sessions.
-- A call returns its result, or what it raises, beside the table that it leaves.
pub mod Families
pub mod Standing
pub mod Rotation
pub mod Refinement
pub mod Lifecycle
pub mod Once
pub mod Histories
pub mod Finality
pub mod Revocation
mod Tests
use text.Mathlib.Text.{◌==◌ as str_eq}
use what_a_secure_app_should.Base.{
  ℕ, zero, suc, ◌+◌, Bool, ◌&&◌, Option, none, some, String, List, [], ◌∷◌, ◌==◌, leb, find_first,
  count_where, if◌then◌else◌,
}
use what_a_secure_app_should.Base.Text.{utf8}
use what_a_secure_app_should.Base.Outcome.{Result, ok, err, replay_detected, invalid_refresh_token}
use what_a_secure_app_should.Packages.{Hashlib}
use what_a_secure_app_should.Core.Config.{Settings, days, Clock}
use what_a_secure_app_should.Db.{Session, is_active, add_session, update_session}

pub record IssuedRefresh : Type 0 where
  pub raw_token : String
  pub session : Session

-- What `secrets.token_urlsafe` and `uuid.uuid4` return in one call.
pub record Draws : Type 0 where
  pub raw : String
  pub family : ℕ
  pub id : ℕ

abbrev pub Sessions : Type 0
Sessions = List Session

unfoldable pub hash_token : Hashlib → String → String
hash_token sha raw = sha.sha256_hexdigest (utf8 raw)

-- The result of adding a row: what was issued, or the exception of the flush.
abbrev pub issued_or : Sessions → IssuedRefresh → Result Sessions → Result IssuedRefresh × Sessions
issued_or rows issued (ok rows') = (ok issued, rows')
issued_or rows issued (err e) = (err e, rows)

abbrev pub first_session :
    Settings → Hashlib → Clock → Draws → ℕ → Option String → Option String → Session
first_session cfg sha now new user_id user_agent ip_hash = record {
  id = new.id;
  user_id = user_id;
  refresh_token_hash = hash_token sha new.raw;
  session_family_id = new.family;
  issued_at = now 0;
  expires_at = now 1 + days cfg.refresh_token_lifetime_days;
  revoked_at = none;
  replaced_by_session_id = none;
  user_agent_summary = user_agent;
  source_ip_hash = ip_hash;
}

unfoldable pub issue_initial :
    Settings
    → Hashlib
    → Clock
    → Draws
    → ℕ
    → Option String
    → Option String
    → Sessions
    → Result IssuedRefresh × Sessions
issue_initial cfg sha now new user_id user_agent ip_hash rows =
    let session = first_session cfg sha now new user_id user_agent ip_hash in
    issued_or rows (record { raw_token = new.raw; session = session }) (add_session session rows)

-- The rows that pass a test are revoked, each at its own reading of the clock.
unfoldable pub revoke_where : (Session → Bool) → Clock → ℕ → Sessions → Sessions
revoke_where p now i [] = []
revoke_where p now i (s ∷ rows) =
    (if p s then record s { revoked_at = some (now i) } else s)
    ∷ revoke_where p now (if p s then suc i else i) rows

-- An active session of the family.
abbrev pub active_in : ℕ → Session → Bool
active_in family_id s = (s.session_family_id == family_id) && is_active s

unfoldable pub revoke_family : Clock → ℕ → Sessions → Sessions
unfolding revoke_where
revoke_family now family_id rows = revoke_where (active_in family_id) now 0 rows

abbrev pub successor_of : Settings → Hashlib → Clock → Draws → Session → Session
successor_of cfg sha now new session = record {
  id = new.id;
  user_id = session.user_id;
  refresh_token_hash = hash_token sha new.raw;
  session_family_id = session.session_family_id;
  issued_at = now 1;
  expires_at = now 2 + days cfg.refresh_token_lifetime_days;
  revoked_at = none;
  replaced_by_session_id = none;
  user_agent_summary = session.user_agent_summary;
  source_ip_hash = session.source_ip_hash;
}

abbrev pub replaced : Clock → Session → Session → Session
replaced now successor session = record session {
  revoked_at = some (now 3);
  replaced_by_session_id = some successor.id;
}

-- After the successor was added: the presented session is revoked.
abbrev pub finish_rotation :
    Sessions → Clock → Draws → Session → Session → Result Sessions → Result IssuedRefresh × Sessions
finish_rotation rows now new session successor (ok rows') = (
  ok (record { raw_token = new.raw; session = successor }),
  update_session (replaced now successor session) rows',
)
finish_rotation rows now new session successor (err e) = (err e, rows)

-- `rotate` from the test of `revoked_at` on.
abbrev pub rotate_found :
    Settings
    → Hashlib
    → Clock
    → Draws
    → Sessions
    → Session
    → Option ℕ
    → Result IssuedRefresh × Sessions
rotate_found cfg sha now new rows session (some _) =
    (err (replay_detected "refresh token replay"), revoke_family now session.session_family_id rows)
rotate_found cfg sha now new rows session none =
    if leb session.expires_at (now 0)
    then (err (invalid_refresh_token "expired token"), rows)
    else let successor = successor_of cfg sha now new session in
      finish_rotation rows now new session successor (add_session successor rows)

-- The session of a token hash.
abbrev pub find_by_hash : String → Sessions → Option Session
find_by_hash token_hash = find_first (λ s. str_eq s.refresh_token_hash token_hash)

abbrev pub rotate_from :
    Settings → Hashlib → Clock → Draws → Sessions → Option Session → Result IssuedRefresh × Sessions
rotate_from cfg sha now new rows none = (err (invalid_refresh_token "unknown token"), rows)
rotate_from cfg sha now new rows (some session) =
    rotate_found cfg sha now new rows session session.revoked_at

unfoldable pub rotate :
    Settings → Hashlib → Clock → Draws → String → Sessions → Result IssuedRefresh × Sessions
rotate cfg sha now new raw_token rows =
    rotate_from cfg sha now new rows (find_by_hash (hash_token sha raw_token) rows)

unfoldable pub revoke_session : Clock → Session → Sessions → Sessions
revoke_session now session rows =
    if is_active session
    then update_session (record session { revoked_at = some (now 0) }) rows
    else rows

-- An active session of the user.
abbrev pub active_of : ℕ → Session → Bool
active_of user_id s = (s.user_id == user_id) && is_active s

-- The number of the revoked sessions, and the table.
unfoldable pub revoke_all_for_user : Clock → ℕ → Sessions → ℕ × Sessions
unfolding revoke_where
revoke_all_for_user now user_id rows =
    (count_where (active_of user_id) rows, revoke_where (active_of user_id) now 0 rows)
