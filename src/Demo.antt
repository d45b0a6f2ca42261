-- ===== src/Demo.antt =====
-- demo/src
pub mod Prereqs
