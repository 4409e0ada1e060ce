-- ===== src/Lifecycle.antt =====
-- The life of a plugin, shared by the `*Plugin` classes.
mod Defs
pub mod Laws
pub mod Queue
pub mod Checks
pub mod Single
pub mod SingleLife
unfoldable pub use Defs.{initialize_with, shutdown_with, health_with, get_held}
pub use Defs.{Slot, fresh, on_world, set_status, hold}
