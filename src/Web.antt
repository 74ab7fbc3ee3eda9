-- ===== src/Web.antt =====
-- arby/web: the server of the web pages and its apps.
mod Examples
mod SummaryExamples
pub mod Apps
pub mod EntityDetail
pub mod Server
pub mod Summary
