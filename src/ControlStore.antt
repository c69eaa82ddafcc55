-- ===== src/ControlStore.antt =====
-- apps/api/open_hollywood_api/services/run_controls.py: the durable controls of a run. The tables are
-- dictionaries by ID; a transaction that raises leaves the store as it was.
mod Contracts
mod Usage
mod Transactions
mod Operations
mod Boundaries
pub mod Admission
pub mod Recorded
pub mod Replay
pub mod Transitions
pub mod Finality
pub mod Stopping
pub mod Budgets
pub mod Pauses
unfoldable pub use Contracts.*
unfoldable pub use Usage.*
unfoldable pub use Transactions.*
unfoldable pub use Operations.*
unfoldable pub use Boundaries.*
