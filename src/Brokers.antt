-- ===== src/Brokers.antt =====
-- services/execution-gateway/internal/brokers and the executors and the factory of internal/trading.
pub mod Greeksoft
pub mod Xts
pub mod Local
