-- ===== src/Production.antt =====
-- engine/open_hollywood_engine/workflows/production_contracts.py and production_graph.py: the bounded
-- scene-by-scene production loop.
mod Contracts
mod Rules
mod State
mod Validate
mod Tasks
mod Adjudications
mod Nodes
mod Review
mod Graph
pub mod Steps
pub mod Decisions
pub mod Envelope
pub mod Advance
pub mod Openings
pub mod Settlement
pub mod Errors
pub mod Bounded
pub mod Untouched
pub mod Progress
pub mod Gates
pub mod Acceptance
unfoldable pub use Contracts.*
unfoldable pub use Rules.*
unfoldable pub use State.*
unfoldable pub use Validate.*
unfoldable pub use Review.*
unfoldable pub use Tasks.*
unfoldable pub use Adjudications.*
unfoldable pub use Nodes.*
unfoldable pub use Graph.*
