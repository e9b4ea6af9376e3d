-- ===== src/Pool.antt =====
-- The account pool, internal/pool: one child for each part of its state machine.
pub mod Types
pub mod Health
pub mod Cooldown
pub mod Block
pub mod Breaker
pub mod State
pub mod Lease
pub mod Floats
pub mod Cost
pub mod Pick
pub mod Query
pub mod Persist
pub mod Sync
pub mod Events
pub mod Tests
