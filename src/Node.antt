-- ===== src/Node.antt =====
-- node/*.py: the validator, the ledger, its persistence, and the callbacks of the consensus engine.
pub mod Validator
pub mod Ledger
pub mod Equality
pub mod Store
pub mod Recovery
pub mod Handler
