-- ===== src/Trading.antt =====
-- services/execution-gateway/internal/trading: the records, and the modules of the service.
pub mod Models
pub mod Symbols
pub mod Lifecycle
pub mod Store
pub mod Handlers
pub mod Persist
pub mod Build
pub mod Deploy
pub mod SquareOff
pub mod Summary
pub mod Hedge
pub mod SquareOffPlan
pub mod Monitor
pub mod Batches
