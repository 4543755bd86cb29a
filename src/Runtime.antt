-- ===== src/Runtime.antt =====
-- What runs a source: its package, what it may import, and the handles it is given.
pub mod Provided
pub mod Package
pub mod Table
