-- ===== src/Freight.antt =====
-- companion/tpf2mp/freight.py, freight_protocol.py and freight_transport.py: industries, their
-- production, and the cargo that lines carry between them.
pub mod Records
pub mod Protocol
pub mod Production
pub mod Store
pub mod Transport
mod Tests
