-- ===== src/Lib.antt =====
-- A steganography service: a user embeds an encrypted text in the lowest bits of a PNG, and
-- extracts it with the passphrase. The program has an engine (app/crypto, app/steganography,
-- app/services), the rows of its database (app/db), rotating refresh tokens and access control
-- (app/auth), the validation of uploads and bodies (app/files, app/schemas) and an HTTP API
-- (app/api/v1, app/main.py). A request passes the middleware; its token is resolved to a user. The
-- API validates an upload, calls a service, stores a job and answers. A service derives a key,
-- seals the payload in an envelope and writes the envelope in the image: the header in reading
-- order, the ciphertext in the order of a keyed permutation.
--
-- Python's calls are functions into `Result` (Base/Outcome.antt): a value, or an exception as a
-- value, with a constructor for each exception that the modelled code raises or catches. A call
-- that changes state returns the state it leaves beside its result, on errors too.
--
-- What models what:
-- + Base: shared names, lists, tests into Bool, `Result`, byte strings as lists of ℕ below 256
--   with int.from_bytes and int.to_bytes, UTF-8, the methods of `str` (Str) and `re.match` for
--   patterns of character classes (Regex).
-- + Packages: numpy, Pillow, hashlib and cryptography, as records of operations, and records of
--   the laws that the program relies on. `os.urandom` is a function from the number of the call.
--   Sample has simple functions that meet the laws, for the tests.
-- + Crypto/Struct: struct.pack and struct.unpack of big-endian formats. Crypto/Envelope, Aead,
--   Kdf: app/crypto/envelope.py (Envelope.header_bytes, parse_header), aead.py (encrypt, decrypt),
--   kdf.py (derive_key).
-- + Steg/Arrays: the array operations of numpy that the engine writes out. Steg/Capacity,
--   Permutation, Lsb, Extractor, Verifier: app/steganography/capacity.py, pixel_permutation.py,
--   lsb_png.py (embed, read_header_region, read_ciphertext_region), extractor.py (extract),
--   verifier.py (verify).
-- + Services: app/services/embed_service.py (embed_payload), extract_service.py (extract_payload).
-- + Core/Config, Core/Metrics: app/core/config.py and metrics.py, the counters as an association
--   list.
-- + Db: app/db/models.py, a table as a list of rows; Db/Rows has its laws. Db/Engine:
--   app/db/session.py, the options of the engine.
-- + Auth/Passwords, Auth/Jwt, Auth/Permissions: app/auth/passwords.py (verify_password), jwt.py
--   (create_access_token, decode_access_token) and permissions.py; argon2 and PyJWT are
--   parameters.
-- + Auth/RefreshTokens: app/auth/refresh_tokens.py over the table of sessions. Families, Rotation,
--   Histories, Finality and Revocation are proofs; a history is a sequence of calls. Standing is
--   the abstract state, for each token hash whether it is absent, live or spent; Refinement has
--   what presenting a token does to it, Lifecycle and Once what a history does to a token.
-- + Schemas: app/schemas/auth.py, a body as a list of fields. Accepted says what an accepted
--   registration is.
-- + Files/Validators: app/files/validators.py (validate_png), the global Image.MAX_IMAGE_PIXELS as
--   state. Accepted and Refused are proofs. Threads: the accesses of validations in several
--   threads to it.
-- + Api: the state of the application, with the committed database and the view of the request
--   (app/db/session.py, get_db as `serve`). Api/Jobs: app/api/v1/jobs.py, one function per route.
--   Ownership, Storage and RoundTrip are proofs. Api/Auth and Api/Auth/Account: app/api/v1/auth.py
--   (register, login, refresh, logout, delete_me, list_sessions, revoke_one). Lockout, Refresh and
--   Logout are proofs. Api/Auth/Visitors: what a login keeps of its client, and `me`.
--   Api/Auth/Routes: the routes that take a body, from the body on. Api/Admin: app/api/v1/admin.py
--   and require_admin_user of app/auth/dependencies.py. Api/Access: get_current_user of
--   app/auth/dependencies.py, with `str.lower` as a parameter. Tokens, Logins, Registered,
--   Disabling and Administered are proofs. Api/Integrity: the keys of app/db/models.py over
--   histories of requests, with Users for the table of users, Logins, Handlers and Uploads for the
--   routes and Requests for the histories.
-- + Main: app/main.py, the lifespan, the request id, the health checks and the counters.
--
-- Numbers are ℕ. Bytes are below 256 and the header's fields below 256 ^ 2 or 256 ^ 4, as their
-- widths say; channel values are bytes. Instants and durations are microseconds, and a clock is a
-- function from the number of the reading in a call. UUIDs are numbers. All functions are total by
-- structural recursion, so there is no fuel.
--
-- Not modelled: FastAPI's routing and its resolution of dependencies, but for what a route names;
-- pydantic, but for required fields and the refusal of others; the engine of SQLAlchemy, for which
-- a table stands that refuses clashes of its keys; reading the settings from the environment; the
-- texts of instants; the modules of app/audit, app/cli and others that hold a docstring only.
-- Requests are served one after the other, but for the validations in Threads.
pub mod Base
pub mod Packages
pub mod Crypto
pub mod Steg
pub mod Services
pub mod Core
pub mod Db
pub mod Auth
pub mod Files
pub mod Schemas
pub mod Api
pub mod Main
