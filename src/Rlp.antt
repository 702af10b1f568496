-- ===== src/Rlp.antt =====
-- The RLP serialisation.
pub mod Item
pub mod Value
pub mod BigEndian
pub mod Spec
pub mod Header
pub mod Original
pub mod Corrected
pub mod Matches
pub mod Comparison
pub mod Panics
pub mod RoundTrip
pub mod Numbers
mod Runs
