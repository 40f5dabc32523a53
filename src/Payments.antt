-- ===== src/Payments.antt =====
-- app/payments: deposits, from the invoice to the credit in the wallet.
pub mod Gateway
pub mod Deposits
pub mod Settle
pub mod Webhook
pub mod Kept
pub mod Steps
pub mod Guards
pub mod Once
pub mod Completes
pub mod Reviewed
pub mod Sound
pub mod Lifecycle
pub mod Final
