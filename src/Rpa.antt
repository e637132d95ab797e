-- ===== src/Rpa.antt =====
-- The matching engine of RPA.
pub mod Cache
