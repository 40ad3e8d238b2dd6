-- ===== src/Runtime.antt =====
-- node/runtime/: the addresses, the genesis, the configuration and the home of a CometBFT node.
pub mod External
pub mod Endpoint
pub mod Genesis
pub mod Validators
pub mod Settings
pub mod Config
pub mod Home
