-- ===== src/Brokers/Greeksoft.antt =====
-- services/execution-gateway/internal/brokers/greeksoft.
pub mod Book
pub mod Search
pub mod Tokens
pub mod Executor
