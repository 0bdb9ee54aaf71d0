-- ===== src/Economy.antt =====
-- companion/tpf2mp/checkpoint.py: the integer economy that every peer replays.
pub mod Amounts
pub mod Logit
pub mod Records
pub mod Share
pub mod Market
pub mod Settlement
pub mod Towns
mod Tests
