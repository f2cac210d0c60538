-- ===== src/Files.antt =====
-- app/files: the validation of uploads.
pub mod Validators
