-- ===== src/Fees.antt =====
-- The fee cap of the EIP-1559 and EIP-4844 transactions.
pub mod Caps
pub mod Laws
mod Runs
