-- ===== src/StringBuffer/Fifo.antt =====
-- The buffer is a first-in first-out queue of strings.
pub mod Put
pub mod Take
pub mod Run
