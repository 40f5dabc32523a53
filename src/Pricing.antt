-- ===== src/Pricing.antt =====
-- app/pricemath.py and app/pricing.py: the price of an order, by layers of markup, reseller rates and
-- coupons. Floats are those of the platform (Env.antt).
pub mod Arithmetic
pub mod Coupons
pub mod Quotes
pub mod Margin
pub mod Rates
pub mod NoLoss
pub mod ResellerQuotes
