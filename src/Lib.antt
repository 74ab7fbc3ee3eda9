-- ===== src/Lib.antt =====
-- A verification library of arby, a C++ program that follows the order books of the Power Trade
-- exchange and hands snapshots of them to its observers.
--
-- A connection reads messages of the exchange. For each market a listener turns them into ticks
-- (arby/power_trade/tick_record.cpp), and its snapshot service
-- (arby/power_trade/orderbook_snapshot_service.cpp) applies each tick to the order book
-- (arby/power_trade/order_book.cpp), keeps it in a history (arby/power_trade/tick_history.hpp), and
-- brings a snapshot up to the book, by replay of the ticks that a released snapshot has missed or by
-- a copy. A released snapshot comes back to the free list of the service.
--
-- The files:
-- - Common and its children: the native numbers and their tests, signed integers (Common/Int),
--   results of code that can fail (Common/Result), association lists for the maps (Common/Assoc).
-- - Trading/Types (arby/trading/types.hpp) and Trading/Feed (arby/trading/feed_condition.cpp,
--   arby/trading/feed_snapshot.hpp).
-- - Util/Connections (lib/util/cross_executor_connection.cpp): connections of a signal that are held on
--   other executors, with Connections/Held and Steps. Trading/AggregateFeed
--   (arby/trading/aggregate_book_feed.hpp) is a feed over them, with AggregateFeed/Between and Follows
--   on what a subscriber is given.
--   Trading/FeedExamples has runs.
-- - Trading/SpotMarketKey (arby/trading/spot_market_key.cpp, arby/power_trade/native_symbol.cpp), with
--   the round trips in SpotMarketKey/RoundTrip, and Trading/Examples.
-- - PowerTrade/Ticks: the ticks of arby/power_trade/tick_record.hpp.
-- - PowerTrade/OrderBook: `order_book`, its two branches put together. OrderBook/Side has the code of
--   one branch over one side of the book: the ladder, the index from identifiers to iterators, and
--   the total. An iterator is a price and the address of a node; a dereference of one that leads
--   nowhere is the fault `dangling_iterator`, a read through the index entry that was just erased is
--   `use_after_free`, and a failed `assert` is `assertion_failed`. OrderBook/Spec and
--   OrderBook/BookSpec say the same with neither index nor addresses. OrderBook/Ordered, Index,
--   Found, Keep, Added, Sound and Books prove the invariant and the refinement, OrderBook/Sums and
--   Deducted are on the totals, OrderBook/Copy and Assigned are on `operator=`.
-- - PowerTrade/TickHistory: the history over ordered lists; TickHistory/Retained proves what it keeps.
-- - PowerTrade/SnapshotService: `replay_tick` (SnapshotService/Replay) and `process_tick`, with
--   SnapshotService/CatchUp on what the snapshots hold, SnapshotService/Held and Histories on one tick,
--   SnapshotService/Runs on any ticks and releases, SnapshotService/Sums on the totals.
--   PowerTrade/ServiceExamples has runs.
-- - PowerTrade/Listener: the handlers of `orderbook_listener_impl`; Listener/Conditions is on what the
--   conditions of its snapshots tell, Listener/Shows and Signals on what their books show.
-- - PowerTrade/Pipeline: the listener from the messages of the connector on, on two executors that share
--   one inbound message, with Pipeline/Meaning on what a message says, Pipeline/Schedules on when what
--   was posted can be run, Pipeline/Observes on what observers are shown, and Pipeline/Late on an answer
--   that is handled too late.
--   PowerTrade/PipelineExamples has runs.
-- - PowerTrade/Connector: the coroutines of arby/power_trade/detail/connector_impl.cpp as a state
--   machine; Connector/Queue has the invariant of its states, Connector/Runs is on any events, and
--   Connector/Drain on the writing of what is queued.
-- - PowerTrade/Messages: the matchers and the inbound messages of
--   arby/power_trade/detail/connector_impl.hpp and their dispatch, with Messages/Matchers and
--   Messages/Dispatch on what is matched and who is called.
-- - PowerTrade/TickRecord (arby/power_trade/tick_record.cpp): ticks from the objects of messages;
--   TickRecord/Reads and TickRecord/Describes say what a payload has to have.
-- - PowerTrade/Subscriptions: what the listener does with a message on the connector's executor, with
--   Subscriptions/Posts on what it posts. PowerTrade/ConnectorExamples has runs of these.
-- - PowerTrade/TickLogger (arby/power_trade/tick_logger.cpp): which messages go to a data log, with
--   TickLogger/Slots on the slots that it is behind and TickLogger/Logs on what its file holds.
-- - PowerTrade/EventListener (arby/power_trade/event_listener.cpp): the listeners that print, with
--   EventListener/Slots, Moves and Runs on their connections; PowerTrade/ListenerExamples has runs.
-- - PowerTrade/Examples: runs, and the theorems at concrete books.
-- - Asioex/Semaphore (lib/asioex/async_semaphore.hpp, lib/asioex/impl, lib/asioex/detail): a counting
--   semaphore with an intrusive ring of waiters on a heap. Semaphore/Ring is on the pointers under
--   stores, Semaphore/Waiters on the queue that a ring represents, Semaphore/Operations on single
--   operations, Semaphore/Refines has the specification as steps on that queue, and Semaphore/Counts
--   is on the count and on the destructor; Asioex/Examples has runs.
-- - Util/Table (lib/util/table.cpp): the table that is printed, with Table/Widths on the widths of its
--   columns, Table/Print on what is printed, Table/Set on `set`.
-- - Util/Truncate (lib/util/truncate.cpp): texts that are cut at a limit, in buffers of a thread, with
--   Truncate/Buffers and Truncate/Runs on who has which buffer; Util/Examples has runs of both.
-- - Util/Monitor (lib/util/monitor.cpp): the instances that the program shows of its coroutines, with
--   Monitor/Kept and Steps on the set, Monitor/Runs on the sentinels that own them; Util/MonitorExamples has a
--   run.
-- - Entity/Digest (arby/entity/entity_key.cpp) and Web/EntityDetail
--   (arby/web/entity_detail_app.cpp): digests in hexadecimal digits, written and read.
-- - Entity/Keys (arby/entity/entity_key.hpp and .cpp): keys that share an implementation until one is
--   written, with Keys/Maps on what is found in their values, Keys/Sharing on keys that share nothing.
-- - Entity/Service (arby/entity/entity_base.cpp, arby/entity/entity_service.hpp): handles, and the
--   life of entities. Service/Uses is on what keeps them alive, Service/Tasks and Service/Lives on
--   single operations, Service/Runs on any of them; Entity/Examples has runs.
-- - Web/Apps (arby/web/http_app.cpp, arby/web/http_server.cpp): the applications and the connections of
--   the server, with Apps/Routes on which application gets a request, Apps/Answers on how one request is
--   answered, and Apps/Sessions on what a
--   connection is sent, while no application is added. Web/Server is on who owns and stops the
--   implementations, with Server/Held, Server/Stops and Server/Runs. Web/Summary
--   (arby/web/entity_summary_app.cpp) is the page of entities, with Summary/Local; Web/Examples and
--   Web/SummaryExamples have runs.
-- - Logging/DataLog (arby/logging/data_log.cpp): the log of lines over a channel, with DataLog/Writes
--   on what the file holds and DataLog/Finishes on its end; Logging/Examples has runs.
-- - Common/Totals: sums over lists, by which owners are counted.
--
-- Prices and quantities are decimals of 50 digits in the source. They are exact here, counted in
-- units of 10^-8, so rounding is not modelled. Time points are numbers, and what the clock says is an
-- argument. Sequence numbers and generations wrap at 2^64. The loops are recursions on lists; the
-- one of the semaphore's destructor takes fuel, of which one unit decides its first pass. `reset`,
-- `clear` and copies give nodes new addresses, as the standard lets iterators into an overwritten
-- container dangle. Calls of the logger spdlog are not modelled, nor printing but that of tables,
-- keys and pages. What Boost.JSON, Boost.Beast, the channels of Boost.Asio, regular expressions and
-- OpenSSL do is a parameter of the modules that use them. Where code runs on several executors, its
-- steps are events in any order that the executors allow.
--
-- Not modelled: the TLS and websocket layers of the connector, the cache of entities by their keys,
-- the sockets of the web server and the start of the program; trading/entity.hpp and arby/reactive,
-- which are unfinished in the source; and new_aggregate_book_snapshot of
-- arby/trading/aggregate_book_feed.hpp, which does not compile. Memory does not run out: a vector of
-- the table throws only beyond its greatest size, which is a parameter.
pub mod Common
pub mod Trading
pub mod PowerTrade
pub mod Asioex
pub mod Util
pub mod Entity
pub mod Logging
pub mod Web
