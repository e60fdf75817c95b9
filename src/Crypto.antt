-- ===== src/Crypto.antt =====
-- core/src/crypto: padding, key derivation and authenticated encryption.
pub mod Padding
pub mod Sodium
pub mod X25519
pub mod Hkdf
pub mod Aead
pub mod SkippedKeys
pub mod SenderKeys
pub mod DoubleRatchet
pub mod Shamir
