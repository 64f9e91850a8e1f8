-- ===== src/Common.antt =====
-- src/common: addresses, and the tables that are indexed by address.
pub mod Address
pub mod AddressMap
pub mod SafeAddressMap
pub mod TraceMap
