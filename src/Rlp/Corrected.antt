-- ===== src/Rlp/Corrected.antt =====
pub mod Decode
pub mod Encode
