-- ===== src/Rvm.antt =====
-- The virtual machine: the tables of names that code is generated with.
pub mod CodeMap
pub mod RelocMap
pub mod Scope
mod Tests
