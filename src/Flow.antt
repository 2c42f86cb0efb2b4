-- ===== src/Flow.antt =====
-- stasis/src/flowLoader.ts: call flows as graphs of nodes and edges, and their loading from the
-- tables `call_flows`, `flow_nodes` and `flow_edges`.
mod Defs
pub mod Load
pub mod Loaded
pub mod Ordered
mod Tests
unfoldable pub use Defs.*
