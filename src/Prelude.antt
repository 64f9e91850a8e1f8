-- ===== src/Prelude.antt =====
-- The names that the other modules share: the libraries', passed on, and those of the children.
pub mod Tests
pub mod Lists
pub mod Outcomes
pub mod Bits
pub mod Families
pub mod Members
pub use Tests.*
pub use Lists.*
pub use Outcomes.*
