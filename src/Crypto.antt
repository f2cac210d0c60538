-- ===== src/Crypto.antt =====
-- app/crypto: the envelope, the authenticated cipher and the key derivation.
pub mod Struct
pub mod Envelope
pub mod Aead
pub mod Kdf
