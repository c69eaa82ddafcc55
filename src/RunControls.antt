-- ===== src/RunControls.antt =====
-- engine/open_hollywood_engine/workflows/run_controls.py: the budget of a run, the usage it is held
-- against, and the commands that change it.
mod Contracts
mod Commands
pub mod Limits
pub mod Budgets
unfoldable pub use Contracts.*
unfoldable pub use Commands.*
