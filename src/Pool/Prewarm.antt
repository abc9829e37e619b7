-- ===== src/Pool/Prewarm.antt =====
-- src/pool/mod.rs: the rounds of `Pool::prewarm` where every creation succeeds.
pub mod Creating
pub mod Filling
pub mod Tests
