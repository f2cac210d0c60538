-- ===== src/Core/Config.antt =====
-- app/core/config.py: the settings and their defaults. Instants and
-- durations are in microseconds, the resolution of Python's `datetime`.
use what_a_secure_app_should.Base.{ℕ, ◌*◌, String}

pub record Settings : Type 0 where
  pub app_env : String
  pub database_url : String
  pub redis_url : String
  pub jwt_signing_key : String
  pub password_min_length : ℕ
  pub password_max_length : ℕ
  pub max_failed_logins : ℕ
  pub lockout_minutes : ℕ
  pub access_token_lifetime_minutes : ℕ
  pub refresh_token_lifetime_days : ℕ
  pub max_upload_bytes : ℕ
  pub max_image_dimension : ℕ
  pub max_decoded_pixels : ℕ
  pub max_payload_bytes : ℕ
  pub stego_retention_minutes : ℕ
  pub plaintext_retention_minutes : ℕ
  pub tmp_storage_dir : String
  pub log_level : String

abbrev pub default_settings : Settings
default_settings = record {
  app_env = "local";
  database_url = "sqlite:///./steg.db";
  redis_url = "";
  jwt_signing_key = "dev-only-insecure-key-change-me";
  password_min_length = 12;
  password_max_length = 128;
  max_failed_logins = 10;
  lockout_minutes = 15;
  access_token_lifetime_minutes = 15;
  refresh_token_lifetime_days = 7;
  max_upload_bytes = 10 * 1024 * 1024;
  max_image_dimension = 4096;
  max_decoded_pixels = 16_000_000;
  max_payload_bytes = 64 * 1024;
  stego_retention_minutes = 30;
  plaintext_retention_minutes = 5;
  tmp_storage_dir = "/tmp/steg-artifacts";
  log_level = "INFO";
}

-- `timedelta(minutes=n)` and `timedelta(days=n)`
abbrev pub minutes : ℕ → ℕ
minutes n = n * 60_000_000

abbrev pub days : ℕ → ℕ
days n = n * 86_400_000_000

-- The i-th reading of the clock in a call.
abbrev pub Clock : Type 0
Clock = ℕ → ℕ
