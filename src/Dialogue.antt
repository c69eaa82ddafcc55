-- ===== src/Dialogue.antt =====
-- engine/open_hollywood_engine/workflows/dialogue_contracts.py and dialogue_graph.py: the bounded
-- two-character dialogue subgraph.
mod Contracts
mod Nodes
mod Graph
pub mod Steps
pub mod Rounds
pub mod Outcome
unfoldable pub use Contracts.*
unfoldable pub use Nodes.*
unfoldable pub use Graph.*
