-- ===== src/Workers/Kept.antt =====
-- A round of the loops of app/workers.py keeps whatever is stable.
use smmfalcron.Prelude.{ℕ, String, Option, none, some, List, [], ◌∷◌, map, select, length}
use smmfalcron.Models.{Db, Order}
use smmfalcron.Env.{Env}
use smmfalcron.Session.Keeps.{
  Keeps, bind-Keeps, attempted-Keeps, then-Keeps, read-Keeps, return-Keeps, session_scope-Keeps,
}
use smmfalcron.Wallet.Stable.{Stable}
use smmfalcron.Orders.Sync.{ProviderReply}
use smmfalcron.Orders.Actions.{list_open_orders}
use smmfalcron.Orders.Kept.{sync_order_status-Keeps, flag_stuck_orders-Keeps}
use smmfalcron.CatalogSync.Provide.{Upstream}
use smmfalcron.CatalogSync.Kept.{sync_all-Keeps, Stable-Syncing}
use smmfalcron.Payments.Gateway.{GatewayStatus}
use smmfalcron.Payments.Kept.{Settling, reconcile_pending-Keeps}
use smmfalcron.Workers.{
  add_notice, sync_one, sync_listed, sync_open_orders_once, flag_stuck_orders_once,
  sync_catalog_once, reconcile_payments_once, is_credited, is_mismatch, Job, order_sync,
  stuck_orders, payment_reconcile, catalog_sync, run_job,
}

module _ ⦃env : Env⦄ {I : Db → Type 0} (s : Stable I) where
  sync_one-Keeps : (order : Order) (answer : ProviderReply) → Keeps I (sync_one order answer)
  unfolding sync_one
  sync_one-Keeps order answer = attempted-Keeps (sync_order_status-Keeps s order answer)

  sync_listed-Keeps :
      (answers : ℕ → ProviderReply) (orders : List Order) → Keeps I (sync_listed answers orders)
  unfolding sync_listed
  sync_listed-Keeps answers [] = return-Keeps
  sync_listed-Keeps answers (order ∷ orders) =
      bind-Keeps (sync_one-Keeps order (answers order.id)) λ out.
        bind-Keeps (sync_listed-Keeps answers orders)
          λ round. return-Keeps {a = add_notice order out round}

  pub sync_open_orders_once-Keeps :
      (answers : ℕ → ProviderReply) → Keeps I (sync_open_orders_once answers)
  unfolding sync_open_orders_once
  sync_open_orders_once-Keeps answers =
      session_scope-Keeps (
        bind-Keeps (read-Keeps {f = list_open_orders 80})
          λ orders. sync_listed-Keeps answers orders)

  pub flag_stuck_orders_once-Keeps : Keeps I flag_stuck_orders_once
  unfolding flag_stuck_orders_once
  flag_stuck_orders_once-Keeps = session_scope-Keeps (
      bind-Keeps (flag_stuck_orders-Keeps s 600 50)
        λ stuck. return-Keeps {a = map (λ (o : Order). o.public_id) stuck})

  pub sync_catalog_once-Keeps :
      (upstream : String → Upstream) → Keeps I (sync_catalog_once upstream)
  unfolding sync_catalog_once
  sync_catalog_once-Keeps upstream =
      session_scope-Keeps (sync_all-Keeps upstream (Stable-Syncing s))

module _ ⦃env : Env⦄ {I : Db → Type 0} (s : Settling I) where
  pub reconcile_payments_once-Keeps :
      (gateway : Option (String × (String → Option GatewayStatus)))
      → Keeps I (reconcile_payments_once gateway)
  unfolding reconcile_payments_once
  reconcile_payments_once-Keeps none = return-Keeps
  reconcile_payments_once-Keeps (some (name, fetch_status)) = session_scope-Keeps (
      bind-Keeps (reconcile_pending-Keeps s name fetch_status 120 72 50) λ results.
        return-Keeps {a = (length results, select is_credited results, select is_mismatch results)})

  pub run_job-Keeps : (job : Job) → Keeps I (run_job job)
  unfolding run_job
  run_job-Keeps (order_sync answers) =
      then-Keeps (sync_open_orders_once-Keeps s.stable answers) return-Keeps
  run_job-Keeps stuck_orders = then-Keeps (flag_stuck_orders_once-Keeps s.stable) return-Keeps
  run_job-Keeps (payment_reconcile gateway) =
      then-Keeps (reconcile_payments_once-Keeps gateway) return-Keeps
  run_job-Keeps (catalog_sync upstream) =
      then-Keeps (sync_catalog_once-Keeps s.stable upstream) return-Keeps
