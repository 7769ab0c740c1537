-- ===== src/Market.antt =====
-- The market data of market/*.cpp: the REST client, the WebSocket client and the service over both.
pub mod Rest
pub mod Trades
pub mod TradeRoundTrip
pub mod Agreement
pub mod Service
pub mod Stopping
pub mod Joins
