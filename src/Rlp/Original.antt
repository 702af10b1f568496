-- ===== src/Rlp/Original.antt =====
pub mod Decode
pub mod Encode
