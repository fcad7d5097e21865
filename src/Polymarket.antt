-- ===== src/Polymarket.antt =====
-- The package polymarket/: the code that talks to the exchange.
pub mod Orders
