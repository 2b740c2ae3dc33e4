-- ===== src/NodeQueue/Fifo.antt =====
-- The nodes leave the queue in the order in which they were put in.
pub mod Add
pub mod Remove
