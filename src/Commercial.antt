-- ===== src/Commercial.antt =====
-- Sales, credit accounts and the shop (the commercial layer of
-- app/modules/zylo_liquid/service.py). Quantities and prices are whole numbers of small units, so
-- an amount is their product.
pub mod Tables
pub mod Sales
pub mod Payments
pub mod Shop
pub mod Ledger
mod Tests
