-- ===== src/Tests.antt =====
-- Concrete runs of the components, and the theorems at inputs that meet their hypotheses.
mod Numbers
mod Fixtures
mod ChunkerRuns
mod TradingRuns
mod ServiceRuns
mod ActionRuns
mod RefreshRuns
mod BrokerRuns
mod MarketRuns
mod SnapshotRuns
mod GatewayRuns
mod ControlRuns
