-- ===== src/Tests/WorkerTests.antt =====
-- A witness for the order loop, on the market of the fixtures with one order on its way.
use smmfalcron.Prelude.{ℕ, ◌≡◌, ◌⊎◌, ◌≤◌, [], ◌∷◌, length}
use smmfalcron.Models.{Db}
use smmfalcron.Orders.Sync.{ProviderReply, answered}
use smmfalcron.Orders.Actions.{list_open_orders}
use smmfalcron.Workers.{sync_open_orders_once}
use smmfalcron.Workers.Completes.{RunsThrough, BreaksOff, round_ends}
use smmfalcron.Tests.Fixtures.{test_env, market}
use smmfalcron.Tests.ServiceTests.{running, failed_status}

abbrev busy : Db
busy = record market { orders = (1, running) ∷ []; next_order_id = 2 }

abbrev all_failed : ℕ → ProviderReply
all_failed id = answered failed_status

round_ends_example :
    (length (list_open_orders 80 busy) ≤ 80)
    × (RunsThrough all_failed
          (list_open_orders 80 busy)
          busy
          (sync_open_orders_once all_failed busy)
        ⊎ (BreaksOff all_failed
              (list_open_orders 80 busy)
              busy
              (sync_open_orders_once all_failed busy)
            × ((sync_open_orders_once all_failed busy).1 ≡ busy)))
round_ends_example = round_ends all_failed busy
