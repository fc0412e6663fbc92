-- ===== src/Lib.antt =====
-- The Go services of an options trading platform. The execution gateway sells straddles: it cuts a
-- trade into chunks of orders, sends them to a broker, keeps what it did in a store, and squares
-- the trade off again. Around it stand the registry of brokers and the sessions of their accounts.
--
-- Parts and sources:
--   Chunker          services/execution-gateway/internal/trading/chunker.go: GenerateChunkedOrders
--   Trading.Models   .../trading/models.go and interfaces.go: the records
--   Trading.Symbols  .../trading/helpers.go: lot sizes, limits, segments, order ids, chain rows
--   Trading.Lifecycle  .../trading/lifecycle.go and the counting query of lifecycle_refresh.go;
--                    Refreshed has the theorems on the status
--   Trading.Store    .../trading/service.go (MemoryStore) and store_postgres.go;
--                    AllTrades is in Loads, LoadIntents in Intents, the marks of an order's
--                    execution in Marks
--   Trading.Persist  what a restarted process loads from that store
--   Trading.Build    .../trading/service.go: executeBuild, with Fills, Attempts, Stops and Keeps
--   Trading.Batches  .../trading/builder.go: BuildStraddle
--   Trading.Deploy   .../trading/service.go: DeployStraddle. Plan holds what it decides before it
--                    stores anything, Outcome and Sells what it leaves.
--   Trading.SquareOff  .../trading/squareoff_intents.go; Act is SquareOff and PartialSquareOff of
--                    service.go
--   Trading.Summary  .../trading/execution_summary.go: classes of statuses, phases of ids; Requests
--                    reads the stored JSON, Response is ExecutionSummary
--   Trading.SquareOffPlan  .../trading/squareoff_plan.go
--   Trading.Hedge    .../trading/hedge_mapping.go and manual_hedge_broker.go, whose
--                    ManualHedgeBrokerOrder is in Broker; AtMoney is ManualHedge
--   Trading.Handlers  .../trading/handlers.go; Refresh is the handler of lifecycle_refresh.go; what
--                    it changes is in Answers, what shows it in Shown, what does not in Ignored
--   Trading.Monitor  .../trading/service.go: runMonitorCycle; runtime.go: tickRuntime, runMonitor
--   Greeks           services/execution-gateway/internal/greeks/monitor.go
--   Brokers          services/execution-gateway/internal/brokers: Greeksoft (Tokens is mapper.go, Book,
--                    Search and Executor are executor.go) and Xts; Local is the mock executor and the
--                    broker factory of internal/trading
--   Normalize        services/reconciler/internal/normalize and
--                    services/execution-gateway/internal/errors
--   ContractMaster   services/contract-master/internal/parser and internal/ingest: Cells, the table of
--                    Lots, the Rows of the files; Rows.Loader is csv_loader.go
--   ControlSessions  services/control-api/internal/session
--   ControlApi       services/control-api/internal/handlers: Auth is auth.go, Auth.Proxy is
--                    proxy.go and helpers.go, Straddle is straddle.go, Requests runs them one after
--                    the other
--   Snapshots        services/snapshot-service/cmd/main.go: Dates, Cache, its Keys, and Hub; Nearest and
--                    Latest say what the cache answers
--   MarketData       services/market-data-gateway: Expiries and Startup are cmd/main.go, Chains is
--                    internal/chain_fetcher
--   Correlation, Router  services/execution-gateway/internal/correlation and internal/router
--   BrokerRegistry   libs/broker-registry/registry.go
--   SessionManager   services/session-manager/internal/manager
--   Prelude          numbers, lists, ASCII text, maps, results; Tests: runs at concrete inputs
--
-- How the code is read: an operation is a function from a state to a result and a state. The
-- gateway's state is its store and the calls of the broker, the latest first. A broker is any
-- function of the calls so far and the order; it may fail, refuse, fill or leave an order open.
-- `float64` is a type with the operations that the code calls, about which nothing is assumed.
-- `int` and `int64` are integers, cut to 64 bits where the code's numbers may leave them. A Go map
-- is a list of pairs whose order is arbitrary. JSON, the clock, the option chain service, the
-- broker factory and the formats of times and strikes are parameters.
--
-- Loops are recursion on lists or counts. The rounds of a build are bounded by the constant three of
-- the source and the wait for an order book by its number of attempts, so no other bound is needed.
-- A monitor's loop is a function of the list of what it receives. Decoded JSON is a data type whose
-- objects list their fields in the order in which the code's range over the map meets them.
--
-- Not modelled: the handlers of the execution gateway for its health and for the manual square-off,
-- sockets and the message pumps of the market data feeds, logging and waits, locks
-- (each locked operation is one step), statements that a database refuses, and runs of several
-- requests at once. Left out too are the clients of remote interfaces (libs/broker-xts,
-- libs/broker-greeksoft, clients.go of the gateway), which only send and decode, libs/db, the start
-- and the routes of the mains, and trading.go of the control API, which declares again what
-- straddle.go declares. The services in C++ and the web page are outside.
pub mod Prelude
pub mod Chunker
pub mod Trading
pub mod Correlation
pub mod Brokers
pub mod ContractMaster
pub mod ControlSessions
pub mod Greeks
pub mod Normalize
pub mod Router
pub mod BrokerRegistry
pub mod SessionManager
mod Tests
pub mod Snapshots
pub mod MarketData
pub mod ControlApi
