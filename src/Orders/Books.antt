-- ===== src/Orders/Books.antt =====
-- The shared steps of app/orders.py keep whatever is stable: they move money only by the operations
-- of app/wallet.py, and write only to the tables that hold none.
use smmfalcron.Prelude.{ℕ, refl, String, Option, none, some, nat_eq, string_eq, ◌==◌}
use smmfalcron.Prelude.Int.{ℤ}
use smmfalcron.Models.{CouponRedemption, Db, Order, OrderStatus}
use smmfalcron.Env.{Env}
use smmfalcron.Session.Keeps.{
  then-Keeps, return-Keeps, Keeps, bind-Keeps, read-Keeps, if-Keeps, one_or_none-Keeps,
}
use smmfalcron.Wallet.Stable.{Stable, write-Keeps}
use smmfalcron.Orders.Steps.{
  drop_found, release_code, save_order, record_event, release_coupon_use, fail_and_release,
}

module _ ⦃env : Env⦄ {I : Db → Type 0} (s : Stable I) where
  pub save_order-Keeps : (order : Order) → Keeps I (save_order order)
  unfolding save_order
  save_order-Keeps order = write-Keeps s _ (λ _. refl) (λ _. refl) (λ _. refl)

  pub record_event-Keeps :
      (order : Order) (status : OrderStatus) (remark : Option String)
      → Keeps I (record_event order status remark)
  unfolding record_event save_order
  record_event-Keeps order status remark = record {
    kept = λ db h. s.elsewhere db _ refl refl refl h;
  }

  used-Keeps :
      (code : String) (order_id : ℕ) (use_ : Option CouponRedemption)
      → Keeps I (drop_found code order_id use_)
  used-Keeps code order_id none = return-Keeps
  used-Keeps code order_id (some r) = write-Keeps s _ (λ _. refl) (λ _. refl) (λ _. refl)

  release_code-Keeps : (order : Order) (code : Option String) → Keeps I (release_code order code)
  release_code-Keeps order none = return-Keeps
  release_code-Keeps order (some code) = if-Keeps (code == "") return-Keeps (
      bind-Keeps read-Keeps λ found.
        bind-Keeps (one_or_none-Keeps found) λ redemption. used-Keeps code order.id redemption)

  pub release_coupon_use-Keeps : (order : Order) → Keeps I (release_coupon_use order)
  unfolding release_coupon_use
  release_coupon_use-Keeps order = release_code-Keeps order order.coupon_code

  pub fail_and_release-Keeps :
      (uid : ℕ) (order : Order) (charge : ℤ) (reason tag : String)
      → Keeps I (fail_and_release uid order charge reason tag)
  unfolding fail_and_release
  fail_and_release-Keeps uid order charge reason tag =
      then-Keeps (s.releases uid charge _ _)
        (then-Keeps (release_coupon_use-Keeps _) (record_event-Keeps _ OrderStatus.failed _))
