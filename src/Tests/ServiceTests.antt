-- ===== src/Tests/ServiceTests.antt =====
-- Witnesses for the properties of the orders and of the service, on the market of the fixtures.
use smmfalcron.Prelude.{
  join_with, ◌≡◌, arith, refl, ℕ, true, none, some, List, [], ◌∷◌, nat_eq, string_eq,
}
use smmfalcron.Prelude.Int.{◌<ℤ◌, ◌-ℤ◌, pos, ◌≤ℤ◌}
use smmfalcron.Models.{Order, Layer, Extra, EntryType, OrderStatus}
use smmfalcron.Wallet.Invariant.{IsSound}
use smmfalcron.Orders.Place.{Request, accepted}
use smmfalcron.Orders.Sync.{ProviderStatus, answered, sync_order_status}
use smmfalcron.Orders.Steps.{refunded_so_far, refunds_in}
use smmfalcron.Orders.Actions.{request_cancel}
use smmfalcron.Orders.NeverMore.{cancel_within_charge, sync_within_charge}
use smmfalcron.Orders.Refunded.{refunded_not_credited}
use smmfalcron.Orders.FullRefund.{refund_completes}
use smmfalcron.Orders.Refund.{owed_for}
use smmfalcron.Table.{lookup}
use smmfalcron.Session.{returns}
use smmfalcron.Wallet.{payment_key, find_key}
use smmfalcron.Security.{key_or, new_idempotency_key}
use smmfalcron.Orders.Actions.{refund_owed, cancel_label, cancel_key}
use smmfalcron.Wallet.Stable.{books-IsSound}
use smmfalcron.Service.{Call, move_money, place, sync, cancel, serve}
use smmfalcron.Service.Kept.{serve-IsSound}
use smmfalcron.Tests.Fixtures.{test_env, shop, shop-IsSound, market, label, alice}

pub market-IsSound : IsSound market
market-IsSound = books-IsSound shop market refl refl shop-IsSound

abbrev pub plain : Extra
plain = record {
  comments = none;
  comment_count = none;
  mentions = none;
  usernames = none;
  last_refill_id = none;
  others = [];
}

abbrev pub request : Request
request = record {
  service_id = "svc-1";
  link = "https://example.org/me";
  quantity = pos 500;
  extra = plain;
  coupon_code = none;
  idempotency_key = some "k1";
}

abbrev day : List (ℕ × Call)
day =
    (200, place 1 request "A1B2F0" (accepted "9001"))
    ∷ (
      300,
      sync 1
          (answered (record { status = OrderStatus.canceled; start_count = none; remains = none })),
    )
    ∷ (400, cancel 1 1 true)
    ∷ (500, move_money EntryType.debit 1 (pos 700) label "d1")
    ∷ []

serve-IsSound_example : IsSound (serve day market)
serve-IsSound_example = serve-IsSound day market market-IsSound

-- An order of 57.50 that the provider works on.
abbrev pub running : Order
running = record {
  id = 1;
  public_id = "FL-1";
  user_id = 1;
  service_id = "svc-1";
  provider_id = "prov-1";
  provider_order_id = some "9001";
  status = OrderStatus.processing;
  link = "https://example.org/me";
  quantity = pos 500;
  extra = plain;
  charge_paise = pos 5_750;
  cost_paise = pos 5_000;
  start_count = none;
  remains = some (pos 500);
  snapshot = record {
    service_id = "svc-1";
    provider_service_id = "77";
    rate_per_1000_paise = pos 10_000;
    sell_per_1000_paise = pos 11_500;
    pricing_layer = Layer.global_markup;
    is_refillable = true;
    is_cancelable = true;
    reseller_discount_paise = pos 0;
    retail_per_1000_paise = pos 11_500;
  };
  idempotency_key = "k1";
  coupon_code = none;
  fail_reason = none;
  refill_count = 0;
  last_synced_at = none;
  created_at = 10;
  updated_at = 10;
}

none_refunded : refunded_so_far running market ≤ℤ pos 5_750
unfolding refunded_so_far refunds_in
none_refunded = omega arith

cancel_within_charge_example :
    refunded_so_far running (request_cancel running alice true market).1 ≤ℤ pos 5_750
cancel_within_charge_example = cancel_within_charge running alice true market none_refunded

abbrev pub failed_status : ProviderStatus
failed_status = record { status = OrderStatus.failed; start_count = none; remains = some (pos 500) }

sync_within_charge_example :
    refunded_so_far running (sync_order_status running (answered failed_status) market).1
    ≤ℤ pos 5_750
sync_within_charge_example =
    sync_within_charge running (answered failed_status) market none_refunded

abbrev refunded_status : ProviderStatus
refunded_status = record { status = OrderStatus.refunded; start_count = none; remains = none }

refunded_not_credited_example :
    (sync_order_status running (answered refunded_status) market).1.ledger ≡ market.ledger
refunded_not_credited_example = refunded_not_credited running refunded_status market refl

little_refunded : refunded_so_far running market <ℤ pos 5_750
unfolding refunded_so_far refunds_in
little_refunded = omega arith

new_key :
    find_key
      (payment_key "credit"
        (owed_for running market)
        (cancel_label "Refund " running)
        (some (cancel_key "refund" running))
        alice)
      market.ledger
    ≡ none
unfolding find_key key_or new_idempotency_key join_with refunded_so_far refunds_in ◌-ℤ◌
new_key = refl

alice_listed : lookup 1 market.users ≡ some alice
unfolding lookup
alice_listed = refl

refund_completes_example :
    ((refund_owed running market).0 ≡ returns tt)
    × (refunded_so_far running (refund_owed running market).1 ≡ pos 5_750)
refund_completes_example =
    refund_completes running alice market market-IsSound alice_listed little_refunded new_key
