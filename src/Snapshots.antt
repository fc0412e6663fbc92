-- ===== src/Snapshots.antt =====
-- services/snapshot-service/cmd/main.go: the cache of option chains and the hub of web sockets.
pub mod Dates
pub mod Cache
pub mod Nearest
pub mod Keys
pub mod Latest
pub mod Hub
