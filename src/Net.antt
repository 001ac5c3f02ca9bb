-- ===== src/Net.antt =====
-- The network layer: peers that misbehave, bans, and the wire format.
pub mod Misbehavior
pub mod Wire
pub mod Messages
pub mod Bans
pub mod Addresses
pub mod Envelope
