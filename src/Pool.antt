-- ===== src/Pool.antt =====
-- src/pool: the connection pool, one module for each group of handlers.
pub mod State
pub mod Remove
pub mod Idle
pub mod Create
pub mod Get
pub mod Cleanup
pub mod Close
pub mod Threads
pub mod Frame
pub mod Bounds
pub mod System
pub mod Dropping
pub mod Sweeping
pub mod Outcomes
pub mod Liveness
pub mod Store
pub mod Map
pub mod Removal
pub mod Emptied
pub mod Buckets
pub mod Creation
pub mod Fitness
pub mod Returning
pub mod Reuse
pub mod Queued
pub mod Progress
pub mod Prewarm
pub mod Probing
pub mod Owners
pub mod Sorting
pub mod Minting
pub mod Accounted
pub mod Bends
pub mod Follows
pub mod Retains
pub mod Settles
pub mod Lending
pub mod Leaks
pub mod Ids
pub mod Insertion
pub mod Drained
pub mod Matching
pub mod Tests
pub mod LeakTests
pub mod CallTests
