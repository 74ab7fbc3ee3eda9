-- ===== src/Asioex.antt =====
-- lib/asioex: the semaphore of the asynchronous operations.
pub mod Semaphore
mod Examples
