-- ===== src/Routing.antt =====
-- engine/open_hollywood_engine/models/routing.py: the choice of the gateway that answers a request. A
-- gateway is a parameter: its provider, and what it answers to a request.
mod Gateways
pub mod Routes
pub mod Deployments
unfoldable pub use Gateways.*
