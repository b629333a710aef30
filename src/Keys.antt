-- ===== src/Keys.antt =====
-- The key hierarchy: attestation report, master key, wrapped data encryption keys, credentials.
pub mod Crypto
pub mod Derivation
pub mod Repository
pub mod Management
pub mod Encryption
pub mod ToyCipher
pub mod Tests
