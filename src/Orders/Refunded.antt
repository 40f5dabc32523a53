-- ===== src/Orders/Refunded.antt =====
-- What `sync_order_status` of app/orders.py does when the provider reports an order as refunded.
use smmfalcron.Prelude.{◌≡◌, refl, inl, inr, Option, none, some, nat_eq, string_eq, Bool-cases}
use smmfalcron.Models.{Db, Order, OrderStatus}
use smmfalcron.Env.{Env}
use smmfalcron.Prelude.Int.{ℤ}
use smmfalcron.Session.{returns}
use mathlib.Core.Path.{subst, sym}
use smmfalcron.Orders.Steps.{record_event, save_order}
use smmfalcron.Orders.Sync.{
  take_counts, ProviderStatus, answered, too_wide, not_synced, needs_refund, map_status,
  same_status, partial_step, refund_step, settle_change, after_change, move_order, take_answer,
  sync_order_status,
}

module _ ⦃env : Env⦄ where
  settled_as_is :
      (moved : Order) (remains : Option ℤ) (db : Db)
      → moved.status ≡ OrderStatus.refunded
      → settle_change moved OrderStatus.refunded remains db ≡ (returns moved, db)
  unfolding settle_change partial_step refund_step needs_refund
  settled_as_is moved none db e = rw e refl
  settled_as_is moved (some n) db e = rw e refl

  sync_refunded :
      (order : Order) (start remains : Option ℤ) (db : Db)
      → (sync_order_status order
          (answered
            (record { status = OrderStatus.refunded; start_count = start; remains = remains }))
          db).1.ledger
        ≡ db.ledger
  unfolding sync_order_status take_answer move_order map_status after_change record_event save_order
  sync_refunded order start remains db = elim (Bool-cases (not_synced order)) [
    | inl skipped ↦ rw skipped refl
    | inr synced ↦
        elim (Bool-cases (
          too_wide
            (record { status = OrderStatus.refunded; start_count = start; remains = remains }))) [
              | inl wide ↦ rw (synced, wide) refl
              | inr narrow ↦ elim (Bool-cases (same_status OrderStatus.refunded order.status)) [
                | inl same ↦ rw (synced, narrow, same) refl
                | inr moved ↦
                    rw
                      (
                        synced,
                        narrow,
                        moved,
                        settled_as_is
                            (record (take_counts order (record {
                              status = OrderStatus.refunded;
                              start_count = start;
                              remains = remains;
                            })) { status = OrderStatus.refunded; updated_at = db.now })
                            remains _ refl,
                      )
                      refl
              ]
            ]
  ]

  -- When the provider reports an order as refunded, syncing it writes nothing to the ledger: the
  -- customer is not credited.
  pub refunded_not_credited :
      (order : Order) (st : ProviderStatus) (db : Db)
      → st.status ≡ OrderStatus.refunded
      → (sync_order_status order (answered st) db).1.ledger ≡ db.ledger
  refunded_not_credited order st db e =
      subst
        (λ s.
          (sync_order_status order
            (answered (record { status = s; start_count = st.start_count; remains = st.remains }))
            db).1.ledger
          ≡ db.ledger)
        (sym e) (sync_refunded order st.start_count st.remains db)
