-- ===== src/Local.antt =====
-- The local reproductions of the transactions series: they start a node of their own, query,
-- sign, submit and check the receipt.
pub mod Program
pub mod Calls
pub mod Silent
pub mod Signals
pub mod Rules
pub mod Ethereum
pub mod Transact
pub mod Token
pub mod Submission
pub mod Testbed
pub mod Access
pub mod Blobs
pub mod Delegation
pub mod Dynamic
pub mod Series
pub mod Success
pub mod Startup
pub mod Guard
pub mod Lifecycle
pub mod Named
pub mod Sessions
pub mod Legacy
mod Runs
