-- ===== src/MarketData.antt =====
-- services/market-data-gateway: cmd/main.go and internal/chain_fetcher/fetcher.go. The decoder's
-- messages are kept by symbol; at the start the chains of the indices are built, their tokens
-- written to a file and subscribed.
pub mod Expiries
pub mod Chains
pub mod Startup
