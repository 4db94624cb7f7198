-- ===== src/Tests.antt =====
-- Evaluations, and each headline theorem at concrete data.
mod Sample
mod IndexTests
mod StoreTests
mod ChainTests
mod NodeTests
mod ProducerTests
mod BlockTests
mod NetTests
mod SyncTests
mod StreamTests
mod HandshakeTests
mod ConnectionTests
mod WalletTests
