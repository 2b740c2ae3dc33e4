-- ===== src/Debug.antt =====
-- The debugging aids of src/debug: the indentation, and the listing of the resources.
pub mod Indent
pub mod Tree
mod Tests
