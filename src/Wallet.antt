-- ===== src/Wallet.antt =====
-- src/cli/wallet: the command line, the store of the accounts, and the commands.
pub mod Parser
pub mod Db
pub mod Commands
pub mod Passwords
pub mod Accounts
pub mod Search
pub mod Payments
pub mod Lines
pub mod Words
