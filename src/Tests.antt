-- ===== src/Tests.antt =====
-- Tests and witnesses, over one small database.
mod Fixtures
mod WalletTests
mod PricingTests
mod ServiceTests
mod PaymentTests
mod LimiterTests
mod SyncTests
mod ReferralTests
mod WorkerTests
mod SwitchTests
