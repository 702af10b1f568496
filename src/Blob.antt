-- ===== src/Blob.antt =====
-- The blob of the EIP-4844 transaction: its packing into field elements, and what it must be.
pub mod Packing
pub mod FieldElements
pub mod Loop
pub mod Unpacking
mod Runs
