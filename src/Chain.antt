-- ===== src/Chain.antt =====
-- The chain layer: headers and the rules that they obey.
pub mod Header
pub mod Orphans
pub mod Arith
pub mod Index
pub mod Active
pub mod Pow
pub mod ProofOfWork
pub mod Validation
pub mod Selection
pub mod Activation
pub mod Contextual
pub mod Acceptance
pub mod Processing
pub mod Invalidation
pub mod Timedata
