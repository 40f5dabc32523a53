-- ===== src/Workers.antt =====
-- app/workers.py: one round of each loop but the health check. Each round is one session; what
-- goes to the users and operators after the commit is the answer of the round.
pub mod Kept
pub mod Completes
use smmfalcron.Prelude.{
  ℕ, String, Bool, true, false, Option, none, some, List, [], ◌∷◌, ◌&&◌, ◌==◌, string_eq, suc, map,
  select, length, if◌then◌else◌,
}
use smmfalcron.Models.{Db, Order, OrderStatus, status_code}
use smmfalcron.Env.{Env}
use smmfalcron.CatalogSync.Provide.{Upstream, SyncReport, sync_all}
use smmfalcron.Payments.Gateway.{GatewayStatus, SettleOutcome, Verdict, verdict_text}
use smmfalcron.Payments.Webhook.{is_there, reconcile_pending}
use smmfalcron.Session.{
  Session, Outcome, returns, raises, ◌>>=◌, ◌>>◌, return, read, attempted, session_scope,
}
use smmfalcron.Orders.Sync.{ProviderReply, same_status, sync_order_status}
use smmfalcron.Orders.Actions.{list_open_orders, flag_stuck_orders}

abbrev pub Notice : Type 0
Notice = ℕ × String × OrderStatus

-- How many orders moved, and whom to tell of which.
abbrev pub Round : Type 0
Round = ℕ × List Notice

-- `_NOTIFY_STATUSES`
unfoldable pub is_notified : OrderStatus → Bool
is_notified OrderStatus.completed = true
is_notified OrderStatus.partial = true
is_notified OrderStatus.canceled = true
is_notified OrderStatus.failed = true
is_notified OrderStatus.refunded = true
is_notified _ = false

-- `r.outcome == "credited" and r.user_id is not None`
abbrev pub is_credited : SettleOutcome → Bool
is_credited r = verdict_text r.outcome == "credited" && is_there r.user_id

-- `elif r.outcome == "amount_mismatch"`
abbrev pub is_mismatch : SettleOutcome → Bool
is_mismatch r = verdict_text r.outcome == "amount_mismatch"

-- What an order adds to a round, from its status before and after. An order whose sync raised adds
-- nothing.
unfoldable pub add_notice : Order → Outcome Order → Round → Round
add_notice before (raises e) round = round
add_notice before (returns after) (updated, notices) =
    if same_status after.status before.status then (updated, notices) else (
      suc updated,
      if is_notified after.status
          then (after.user_id, after.public_id, after.status) ∷ notices
          else notices,
    )

module _ ⦃env : Env⦄ where
  -- One pass of the loop's `try`.
  unfoldable pub sync_one : Order → ProviderReply → Session (Outcome Order)
  sync_one order answer = attempted (sync_order_status order answer)

  -- What the provider answers is given by the order's id.
  unfoldable pub sync_listed : (ℕ → ProviderReply) → List Order → Session Round
  unfolding sync_one
  sync_listed answers [] = return (0, [])
  sync_listed answers (order ∷ orders) = do
    out ← sync_one order (answers order.id)
    round ← sync_listed answers orders
    return (add_notice order out round)

  unfoldable pub sync_open_orders_once : (ℕ → ProviderReply) → Session Round
  unfolding sync_listed
  sync_open_orders_once answers =
      session_scope (do orders ← read (list_open_orders 80); sync_listed answers orders)

  -- The ids of the orders that are held now.
  unfoldable pub flag_stuck_orders_once : Session (List String)
  flag_stuck_orders_once =
      session_scope
        (do stuck ← flag_stuck_orders 600 50; return (map (λ (o : Order). o.public_id) stuck))

  -- How many payments were asked about, which were credited, and which are held for review.
  unfoldable pub reconcile_payments_once :
      Option (String × (String → Option GatewayStatus))
      → Session (ℕ × List SettleOutcome × List SettleOutcome)
  reconcile_payments_once none = return (0, [], [])
  reconcile_payments_once (some (name, fetch_status)) = session_scope (do
    results ← reconcile_pending name fetch_status 120 72 50
    return (length results, select is_credited results, select is_mismatch results))

  unfoldable pub sync_catalog_once : (String → Upstream) → Session (List SyncReport)
  sync_catalog_once upstream = session_scope (sync_all upstream)

-- One of the loops, with what its round is answered.
pub data Job : Type 0 where
  order_sync : (ℕ → ProviderReply) → Job
  stuck_orders : Job
  payment_reconcile : Option (String × (String → Option GatewayStatus)) → Job
  catalog_sync : (String → Upstream) → Job

module _ ⦃env : Env⦄ where
  unfoldable pub run_job : Job → Session (Unit {0})
  run_job (order_sync answers) = do sync_open_orders_once answers; return tt
  run_job stuck_orders = do flag_stuck_orders_once; return tt
  run_job (payment_reconcile gateway) = do reconcile_payments_once gateway; return tt
  run_job (catalog_sync upstream) = do sync_catalog_once upstream; return tt
