-- ===== src/Lib.antt =====
-- FALARON, a Telegram storefront for social media services: its money paths.
--
-- A customer pays into a wallet and orders services that outside providers deliver. The program's
-- parts, with the files that model them (paths from the repository's root):
--   Wallet        app/wallet.py: an append-only ledger with the balances cached on the user's row;
--                 `credit`, `debit`, `reserve`, `release`, `capture`, each by an idempotency key
--   Pricing       app/pricing.py, app/pricemath.py: Pricing/Arithmetic the rates, Pricing/Coupons
--                 `apply_coupon`, Pricing/Quotes `resolve_sell_rate` and `quote_order`
--   Orders        app/orders.py: Orders/Input the checks of link and extra fields, Orders/Place
--                 `place_order`, Orders/Steps the shared helpers, Orders/Refund the refunds,
--                 Orders/Sync `sync_order_status`, Orders/Actions refill, cancel and review
--   Payments      app/payments/service.py, base.py: Payments/Gateway what gateways say,
--                 Payments/Deposits `create_deposit`, Payments/Settle `settle_payment` and
--                 `manual_confirm`, Payments/Webhook events, reconciliation and `check_payment`
--   Referrals     app/referrals.py: the commissions and `request_payout`; Referrals/Attribution
--                 codes, start links and partner roles, Referrals/Applications the requests for a
--                 role, Referrals/Snapshots the figures shown
--   CatalogSync   app/sync_normalize.py, app/sync.py: CatalogSync/Normalize one row of a provider,
--                 CatalogSync/Provide `sync_provider` and `sync_all`
--   RateLimit     app/ratelimit.py: the limiter with a window per key
--   Catalog       app/catalog.py and app/audit.py: settings, kill switches, the audit row
--   Security      app/security.py: idempotency keys and public ids
--   Models        app/models.py: the rows, and `Db`, the record of all tables
--   Session       app/db.py: a session, its errors, and `session_scope`
--   Workers       app/workers.py: one round of the order, stuck-order, payment and catalog loops
--   Service       the handlers' and loops' calls of these operations, one session each
-- An order quotes its price, reserves the charge in the wallet, is submitted to the provider, and
-- then has its charge captured, released or held for review; polling the provider moves it on and
-- refunds what was not delivered, and a completed order pays the referrer. A deposit opens an invoice
-- at a gateway; a webhook, the reconciliation, a check or an operator settles it, which credits the
-- wallet and pays the referrer of a first deposit. The sync fills the catalog that orders are
-- quoted from.
--
-- State. A function of a session is `Db → Outcome A × Db`: it returns or raises, and what it wrote
-- before a raise is still there, until `session_scope` rolls it back. A flush that fails leaves the
-- session unusable, so that code which catches every exception still loses the whole session:
-- `attempted` throws such an error on (`is_fatal`). A table is a list of keys and rows in order of
-- insertion, so rows come back in the order of their ids; a ledger, events and logs have their
-- newest row first. Row locks make a session run alone on a user, so sessions are taken one after
-- another. Function, field and parameter names are those of the code; where a function of the code
-- is long, its stretches have names of their own, and the comment above each says which stretch it
-- is.
--
-- Parameters. `Env` is what the code takes from its platform: the hash, letter case, JSON text,
-- 64-bit floats as bits with their operations, of which `IsOrdered` states the documented
-- monotonicity, and which numbers the database takes in an `Integer` column, asked of the counts
-- that a provider reports. The time is a field of the database, the random part of an id an
-- argument, and what a provider or a gateway answers an argument too (`ProviderAnswer`,
-- `ProviderReply`, `Upstream`, `CheckoutAnswer`, `GatewayStatus`). `HasDigests` states that a digest
-- is not empty. Amounts are integers in paise without a bound, as in Python. There is no fuel: every
-- loop is over a list.
--
-- Not modelled: the gateway's adapter with its signatures and HTTP calls (app/payments/razorpay.py,
-- signing.py), the providers' adapters, the health check and the waiting of app/workers.py, the
-- limits by route (app/api/limits.py), the bots, the mini app and HTTP routes, configuration and
-- logging, and the services over app/core (tenants, coupons, risk, rates). Texts that only people
-- read (notifications, notes, the JSON of a snapshot's names, of audit values and of an entry's
-- meta data beyond one text) are left out.
pub mod Prelude
pub mod Table
pub mod Models
pub mod Env
pub mod Session
pub mod Security
pub mod Wallet
pub mod Pricing
pub mod Catalog
pub mod Referrals
pub mod Orders
pub mod Payments
pub mod RateLimit
pub mod CatalogSync
pub mod Workers
pub mod Service
mod Tests
