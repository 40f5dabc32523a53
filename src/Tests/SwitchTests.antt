-- ===== src/Tests/SwitchTests.antt =====
-- A witness for the kill switches: the market of the fixtures, set read-only by an operator.
use smmfalcron.Prelude.{◌≡◌, refl, inr, none, some, true, string_eq, strip}
use smmfalcron.Prelude.Int.{pos}
use smmfalcron.Table.{lookup, put}
use smmfalcron.Models.{Db}
use smmfalcron.Catalog.{get_setting, set_setting, is_kill_on}
use smmfalcron.Catalog.Closed.{Refused, shut-Refused}
use smmfalcron.Orders.Place.{accepted, place_order}
use smmfalcron.Orders.Actions.{request_refill}
use smmfalcron.Payments.Gateway.{unavailable}
use smmfalcron.Payments.Deposits.{create_deposit}
use smmfalcron.Tests.Fixtures.{test_env, market, alice}
use smmfalcron.Tests.ServiceTests.{request, running}
use smmfalcron.Tests.PaymentTests.{limits}

abbrev frozen : Db
frozen = (set_setting "read_only" "1" market).1

frozen_read_only : is_kill_on "read_only" frozen ≡ true
unfolding is_kill_on get_setting set_setting strip lookup put
frozen_read_only = refl

shut-Refused_example :
    Refused (place_order 1 request "A1" (accepted "9001")) frozen
    × Refused (request_refill running alice (some "r1")) frozen
    × Refused (create_deposit limits alice (pos 30_000) none "A1" unavailable) frozen
shut-Refused_example =
    shut-Refused frozen (inr frozen_read_only) 1 request (accepted "9001") running alice (some "r1")
      limits (pos 30_000) none "A1" unavailable
