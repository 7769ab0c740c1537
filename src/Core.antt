-- ===== src/Core.antt =====
-- The trading core: order types, order management, pre-trade risk checks, and their composition.
pub mod Orders
pub mod Oms
pub mod Risk
pub mod Trading
pub mod FlatConfig
