-- ===== src/PowerTrade.antt =====
-- arby/power_trade: the order book, the history of ticks, and the snapshots made of them.
pub mod Ticks
pub mod TickHistory
pub mod OrderBook
pub mod SnapshotService
pub mod Listener
pub mod Connector
pub mod Messages
pub mod TickRecord
pub mod Subscriptions
pub mod TickLogger
pub mod EventListener
pub mod Pipeline
mod Examples
mod ServiceExamples
mod PipelineExamples
mod ListenerExamples
mod ConnectorExamples
