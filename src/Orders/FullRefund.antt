-- ===== src/Orders/FullRefund.antt =====
-- What `request_cancel` of app/orders.py pays back for an order whose charge was captured.
use smmfalcron.Prelude.{◌≡◌, refl, none, some, nat_eq, string_eq, ==_refl, nat_eqb_iff, arith}
use smmfalcron.Prelude.Int.{
  ℤ, pos, ◌+ℤ◌, ◌-ℤ◌, ◌<ℤ◌, max_ℤ, int_laws, eq_of_parts, max-le, max-le-right, lt→leb_ℤ,
}
use smmfalcron.Table.{lookup}
use smmfalcron.Models.{Db, User, Order}
use smmfalcron.Env.{Env}
use smmfalcron.Session.{returns}
use smmfalcron.Wallet.{payment_key, find_key}
use smmfalcron.Wallet.Invariant.{IsSound}
use smmfalcron.Wallet.Effects.{Meets, IsSound-Meets, credit_lem}
use smmfalcron.Orders.Steps.{refunds_in, refunded_so_far}
use smmfalcron.Orders.Refund.{owed_for}
use smmfalcron.Orders.Actions.{cancel_label, cancel_key, pay_owed, refund_owed}

owed-eq :
    (charge refunded : ℤ)
    → refunded <ℤ charge
    → max_ℤ (pos 0) (charge -ℤ refunded) +ℤ refunded ≡ charge
owed-eq charge refunded less =
    let over =
      max-le (pos 0) (charge -ℤ refunded) (charge -ℤ refunded) (omega (int_laws, less))
        (omega arith) in
    let under = max-le-right (pos 0) (charge -ℤ refunded) in
    eq_of_parts (max_ℤ (pos 0) (charge -ℤ refunded) +ℤ refunded) charge
      (omega (int_laws, over, under))

owed-pos : (charge refunded : ℤ) → refunded <ℤ charge → pos 0 <ℤ max_ℤ (pos 0) (charge -ℤ refunded)
owed-pos charge refunded less = omega (int_laws, less, max-le-right (pos 0) (charge -ℤ refunded))

module _ ⦃env : Env⦄ (order : Order) (u : User) (db : Db) (h : IsSound db)
    (at : lookup order.user_id db.users ≡ some u)
    (less : refunded_so_far order db <ℤ order.charge_paise)
    (fresh : find_key
        (payment_key "credit"
          (owed_for order db)
          (cancel_label "Refund " order)
          (some (cancel_key "refund" order))
          u)
        db.ledger
      ≡ none) where
  meets :
      Meets order.user_id u
        (owed_for order db)
        (payment_key "credit"
          (owed_for order db)
          (cancel_label "Refund " order)
          (some (cancel_key "refund" order))
          u)
        db
  meets =
      IsSound-Meets order.user_id u (owed_for order db) _ db h at
        (owed-pos order.charge_paise (refunded_so_far order db) less) fresh

  -- From a sound database, where an order's owner is a user, less than the charge was refunded for
  -- the order, and the refund's key is new to the ledger, the refund of a cancellation is paid, and
  -- brings what was refunded for the order to exactly the charge.
  pub refund_completes :
      ((refund_owed order db).0 ≡ returns tt)
      × (refunded_so_far order (refund_owed order db).1 ≡ order.charge_paise)
  unfolding refund_owed pay_owed refunded_so_far refunds_in
  refund_completes =
      rw
        (
          lt→leb_ℤ (owed_for order db) (pos 0)
              (owed-pos order.charge_paise (refunded_so_far order db) less),
          credit_lem order.user_id u (owed_for order db) (cancel_label "Refund " order)
              (some (cancel_key "refund" order)) db meets,
        )
        (
          refl,
          rw (==_refl order.public_id, (nat_eqb_iff u.telegram_id order.user_id).1 meets.own)
              (owed-eq order.charge_paise (refunded_so_far order db) less),
        )
