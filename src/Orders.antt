-- ===== src/Orders.antt =====
-- app/orders.py: the order engine. A step takes the order's row, writes it back and returns it as it
-- then stands; the provider's answer, which comes from outside, is an argument.
pub mod Input
pub mod Steps
pub mod Place
pub mod Refund
pub mod Sync
pub mod Actions
pub mod Books
pub mod Kept
pub mod SameBuyer
pub mod QuoteKept
pub mod PlacedKept
pub mod Capped
pub mod NeverMore
pub mod Refunded
pub mod FullRefund
