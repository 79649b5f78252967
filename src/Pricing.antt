-- ===== src/Pricing.antt =====
-- Prices and the currencies of stations (app/modules/zylo_liquid/service.py), resolved one at a time
-- and in batches.
pub mod Tables
pub mod Dictionaries
pub mod Currencies
pub mod Agreement
pub mod CurrencyBatch
pub mod Ordering
pub mod Prices
pub mod Rows
pub mod PriceBatch
pub mod Latest
mod Tests
