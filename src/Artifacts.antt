-- ===== src/Artifacts.antt =====
-- The artifact contracts of engine/open_hollywood_engine/artifacts/schemas.py, and the references
-- to stored versions of engine/open_hollywood_engine/workflows/contracts.py.
mod Kinds
mod Reviews
mod Bible
pub mod BibleRules
mod BibleEquality
unfoldable pub use Kinds.*
unfoldable pub use Reviews.*
unfoldable pub use Bible.*
unfoldable pub use BibleEquality.*
