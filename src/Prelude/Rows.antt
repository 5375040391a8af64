-- ===== src/Prelude/Rows.antt =====
-- Tables as lists of rows: the names of the modules below, passed on.
mod Table
mod Selection
mod Updates
mod Slices
mod Unique
mod Everywhere
unfoldable pub use Table.*
pub use Selection.*
pub use Updates.*
pub use Slices.*
pub use Unique.*
pub use Everywhere.*
