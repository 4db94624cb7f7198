-- ===== src/Blockchain.antt =====
-- src/lib/blockchain/blockchain.ts, method by method.
pub mod Chain
pub mod Fees
pub mod Balances
pub mod Transactions
pub mod Blocks
pub mod Views
pub mod Valid
pub mod Extends
pub mod Reloaded
pub mod Updates
pub mod Agreement
pub mod Folders
pub mod Start
pub mod Funds
pub mod Accepted
