-- ===== src/Producer.antt =====
-- src/lib/producer: the pool of transactions and the scheduler of minters.
pub mod TxPool
pub mod Minting
pub mod Scheduler
pub mod Incoming
pub mod Pooled
pub mod Turns
