-- ===== src/Wire.antt =====
-- wire/*.py: the signed messages, their canonical encoding, signatures and limits.
pub mod Envelope
pub mod Limits
pub mod Json
pub mod External
pub mod Payload
pub mod Codec
pub mod Signing
