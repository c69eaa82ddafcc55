-- ===== src/Blueprint.antt =====
-- engine/open_hollywood_engine/workflows/contracts.py and blueprint_graph.py: the construction of a story
-- blueprint, up to its approval.
mod Contracts
mod Nodes
mod Graph
pub mod Retries
mod Failures
pub mod Termination
pub mod Ready
unfoldable pub use Contracts.*
unfoldable pub use Nodes.*
unfoldable pub use Graph.*
