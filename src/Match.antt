-- ===== src/Match.antt =====
-- companion/tpf2mp/checkpoint.py, lines 2033 to 2203: the scoreboard, the end of a match and the credit
-- of the companies.
pub mod Credit
pub mod Score
pub mod End
pub mod Leader
pub mod Winner
mod Tests
