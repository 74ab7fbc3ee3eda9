-- ===== src/Util.antt =====
-- lib/util: the table that the program prints, the texts that it truncates, the connections that are
-- held on other executors, and the monitor of coroutines.
pub mod Table
pub mod Truncate
pub mod Connections
pub mod Monitor
mod Examples
mod MonitorExamples
