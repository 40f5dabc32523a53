-- ===== src/Models/Database.antt =====
-- The database that a session sees: one record of tables, and the clock's reading.
use smmfalcron.Prelude.{ℕ, String, List}
use smmfalcron.Table.{Table}
use smmfalcron.Models.Users.{
  User, LedgerEntry, Reseller, Promoter, PayoutRequest, ReferralClick, RoleApplication,
}
use smmfalcron.Models.Catalog.{Provider, Category, Service, StarPrice, SyncRun}
use smmfalcron.Models.Orders.{
  Order, OrderEvent, Coupon, CouponRedemption, IdempotencyRecord, ResellerOrder,
}
use smmfalcron.Models.Payments.{Payment, PaymentEvent, AuditLog}

-- Tables that are only appended to hold their newest row first.
pub record Db : Type 0 where
  pub now : ℕ
  pub users : Table ℕ User
  pub ledger : List LedgerEntry
  pub resellers : Table ℕ Reseller
  pub promoters : Table ℕ Promoter
  pub payouts : List PayoutRequest
  pub referral_clicks : List ReferralClick
  pub applications : Table ℕ RoleApplication
  pub next_application_id : ℕ
  pub providers : Table String Provider
  pub categories : Table String Category
  pub services : Table String Service
  pub star_prices : List StarPrice
  pub settings : Table String String
  pub orders : Table ℕ Order
  pub next_order_id : ℕ
  pub order_events : List OrderEvent
  pub coupons : Table String Coupon
  pub redemptions : List CouponRedemption
  pub idempotency : Table String IdempotencyRecord
  pub reseller_orders : List ResellerOrder
  pub payments : Table String Payment
  pub payment_events : List PaymentEvent
  pub audit_logs : List AuditLog
  pub sync_runs : List SyncRun
