-- ===== src/Pool/Bounds.antt =====
-- src/pool/mod.rs: the limits `max_connections` and `max_idle_connections`, through every handler.
mod Invariant
mod Handlers
mod Closing
mod Reachable
pub use Invariant.*
pub use Handlers.*
pub use Closing.*
pub use Reachable.*
