-- ===== src/Net.antt =====
-- Addresses: who a request comes from, and where a source may reach.
pub mod Bits
pub mod Address
pub mod Cidr
pub mod Egress
pub mod ClientIp
