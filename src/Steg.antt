-- ===== src/Steg.antt =====
-- app/steganography: capacity, pixel permutation, LSB embedding, extraction and verification.
pub mod Arrays
pub mod Capacity
pub mod Permutation
pub mod Lsb
pub mod Extractor
pub mod Verifier
mod Tests
