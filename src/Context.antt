-- ===== src/Context.antt =====
-- engine/open_hollywood_engine/context/: what a specialist is told, within its budget of tokens.
mod Contracts
mod Manifests
mod Sources
mod Compiler
mod Partition
pub mod Budget
pub mod Accounting
pub mod Packets
pub mod Registration
pub mod Required
pub mod Outcome
unfoldable pub use Contracts.*
unfoldable pub use Manifests.*
unfoldable pub use Sources.*
unfoldable pub use Compiler.*
