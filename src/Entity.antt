-- ===== src/Entity.antt =====
-- arby/entity: the keys of entities, their life cycle, and the service that finds them.
mod Examples
pub mod Digest
pub mod Keys
pub mod Service
