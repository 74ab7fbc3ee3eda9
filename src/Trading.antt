-- ===== src/Trading.antt =====
-- arby/trading: the value types, the condition of a feed, and the keys of markets.
pub mod Types
pub mod Feed
pub mod AggregateFeed
pub mod SpotMarketKey
mod Examples
mod FeedExamples
