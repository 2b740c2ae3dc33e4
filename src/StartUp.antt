-- ===== src/StartUp.antt =====
-- The start of the program, src/core/init_oly.c: the file descriptors that it makes sure of, and the
-- environment that it builds for itself.
pub mod Descriptors
pub mod Environment
pub mod Locale
