-- ===== src/Domain.antt =====
-- crates/domain/src: the entities and failures that every other part uses.
pub mod Errors
pub mod Enums
pub mod Payload
pub mod RateLimit
pub mod Library
