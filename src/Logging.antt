-- ===== src/Logging.antt =====
-- arby/logging: the log of lines that a coroutine writes.
mod Examples
pub mod DataLog
