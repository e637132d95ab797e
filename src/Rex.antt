-- ===== src/Rex.antt =====
-- The REX library: automata over ranges of characters.
pub mod Search
pub mod Transition
pub mod Normalize
pub mod Subset
pub mod State
pub mod SubsetKey
pub mod DfaConv
pub mod Construct
pub mod Dfa
pub mod Fragment
pub mod Compiler
pub mod NfaSim
pub mod DfaSim
pub mod Sample
mod Tests
