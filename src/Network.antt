-- ===== src/Network.antt =====
-- companion/tpf2mp/transport_network.py, lines 11 to 182: the network of lines, the paths through it and
-- the pins of freight paths.
pub mod Edges
pub mod Paths
pub mod Walks
pub mod Routes
pub mod Visits
pub mod Search
pub mod Pins
pub mod Pinned
mod Tests
