-- ===== src/Orders/Kept.antt =====
-- What customers, operators and the provider's answers do to an order (app/orders.py) keeps
-- whatever is stable.
use smmfalcron.Prelude.{
  append, ℕ, refl, String, Bool, Option, none, some, List, [], ◌∷◌, nat_eq, string_eq, ◌&&◌, not,
}
use smmfalcron.Prelude.Int.{min_ℤ, ℤ, pos, leb_ℤ}
use smmfalcron.Models.{
  Db, is_refillable_status, is_cancelable_status, User, Order, OrderStatus, is_completed,
  is_partial, is_refunded, is_held_status, is_review,
}
use smmfalcron.Env.{Env}
use smmfalcron.Session.Keeps.{
  Keeps, then-Keeps, bind-Keeps, read-Keeps, return-Keeps, found_or-Keeps, raise_if-Keeps, if-Keeps,
  throw-Keeps,
}
use smmfalcron.Wallet.Stable.{Stable, write-Keeps}
use smmfalcron.Referrals.Kept.{audit-Keeps, credit_order_commission-Keeps}
use smmfalcron.Catalog.{closed, assert_refills_open}
use smmfalcron.Table.{lookup}
use smmfalcron.Session.{order_error, permission_error, unexpected, database_error}
use smmfalcron.Orders.Books.{save_order-Keeps, record_event-Keeps, fail_and_release-Keeps}
use smmfalcron.Orders.Refund.{
  refunded_note, refund_key, partial_key, partial_share, owed_for, nothing_left, no_partial_refund,
  no_refund, pay_refund, pay_back, maybe_partial_refund, refund_if_needed,
}
use smmfalcron.Orders.Sync.{
  not_synced, needs_refund, same_status, map_status, is_empty, ProviderReply, answered, refused,
  crashed, too_wide, partial_step, refund_step, settle_change, after_change, move_order,
  take_answer, sync_order_status,
}
use smmfalcron.Orders.Actions.{
  cancel_label, cancel_key, not_one_choice, may_act, moves_no_money, request_refill, release_held,
  refund_owed, pay_owed, cancel_funds, cancel_owner, request_cancel, release_review, attach_review,
  resolve_review_order, flag_order, flag_all, flag_stuck_orders,
}

module _ ⦃env : Env⦄ {I : Db → Type 0} (s : Stable I) where
  pay_back-Keeps :
      (order : Order) (amount : ℤ) (reason key : String)
      → Keeps I (pay_back order amount reason key)
  unfolding pay_back
  pay_back-Keeps order amount reason key =
      then-Keeps (s.credits _ amount _ _) (write-Keeps s _ (λ _. refl) (λ _. refl) (λ _. refl))

  maybe_partial_refund-Keeps :
      (order : Order) (remains : ℤ) → Keeps I (maybe_partial_refund order remains)
  unfolding maybe_partial_refund
  maybe_partial_refund-Keeps order remains = if-Keeps (nothing_left order remains) return-Keeps (
      bind-Keeps read-Keeps λ already.
        bind-Keeps (read-Keeps {f = λ db. min_ℤ (partial_share order remains) (owed_for order db)})
          λ refund. bind-Keeps (read-Keeps {f = λ db. lookup order.user_id db.users}) λ owner.
            if-Keeps (no_partial_refund already refund owner) return-Keeps (
              pay_back-Keeps order refund (append "Partial refund " order.public_id)
                (partial_key order)))

  pay_refund-Keeps :
      (order : Order) (owed : ℤ) (mapped : OrderStatus) (word : String)
      → Keeps I (pay_refund order owed mapped word)
  unfolding pay_refund
  pay_refund-Keeps order owed mapped word =
      then-Keeps (pay_back-Keeps order owed (refunded_note word order) (refund_key order word)) (
        if-Keeps (is_refunded mapped) (return-Keeps {a = order}) (
          record_event-Keeps s order OrderStatus.refunded
            (some (append "auto-refund after " word))))

  refund_if_needed-Keeps :
      (order : Order) (mapped : OrderStatus) (word : String)
      → Keeps I (refund_if_needed order mapped word)
  unfolding refund_if_needed
  refund_if_needed-Keeps order mapped word =
      bind-Keeps (read-Keeps {f = λ db. lookup (refund_key order word) db.idempotency}) λ already.
        bind-Keeps (read-Keeps {f = λ db. lookup order.user_id db.users}) λ owner.
          bind-Keeps (read-Keeps {f = owed_for order}) λ owed.
            if-Keeps (no_refund already owner order owed) (return-Keeps {a = order})
              (pay_refund-Keeps order owed mapped word)

  partial_step-Keeps :
      (order : Order) (mapped : OrderStatus) (remains : Option ℤ)
      → Keeps I (partial_step order mapped remains)
  unfolding partial_step
  partial_step-Keeps order mapped none = return-Keeps
  partial_step-Keeps order mapped (some n) =
      if-Keeps (is_partial mapped) (maybe_partial_refund-Keeps order n) return-Keeps

  refund_step-Keeps : (order : Order) (mapped : OrderStatus) → Keeps I (refund_step order mapped)
  unfolding refund_step
  refund_step-Keeps order mapped =
      if-Keeps (needs_refund order mapped) (refund_if_needed-Keeps order mapped _) return-Keeps

  settle_change-Keeps :
      (moved : Order) (mapped : OrderStatus) (remains : Option ℤ)
      → Keeps I (settle_change moved mapped remains)
  unfolding settle_change
  settle_change-Keeps moved mapped remains = then-Keeps (partial_step-Keeps moved mapped remains) (
      bind-Keeps (refund_step-Keeps moved mapped) λ settled.
        if-Keeps (is_completed mapped)
          (then-Keeps (credit_order_commission-Keeps s.credits settled)
            (return-Keeps {a = settled}))
          (return-Keeps {a = settled}))

  after_change-Keeps :
      (order : Order) (mapped : OrderStatus) (remains : Option ℤ)
      → Keeps I (after_change order mapped remains)
  unfolding after_change
  after_change-Keeps order mapped remains =
      bind-Keeps (record_event-Keeps s order mapped (some "provider sync"))
        λ moved. settle_change-Keeps moved mapped remains

  take_answer-Keeps :
      (now : ℕ) (order : Order) (answer : ProviderReply) → Keeps I (take_answer now order answer)
  unfolding take_answer move_order
  take_answer-Keeps now order refused = return-Keeps
  take_answer-Keeps now order crashed = throw-Keeps unexpected
  take_answer-Keeps now order (answered st) =
      then-Keeps (raise_if-Keeps (too_wide st) database_error) (
        bind-Keeps
          (if-Keeps (same_status (map_status st.status) order.status) return-Keeps
            (after_change-Keeps _ _ _))
          λ settled. return-Keeps)

  pub sync_order_status-Keeps :
      (order : Order) (answer : ProviderReply) → Keeps I (sync_order_status order answer)
  unfolding sync_order_status
  sync_order_status-Keeps order answer = if-Keeps (not_synced order) return-Keeps (
      bind-Keeps read-Keeps λ now.
        bind-Keeps (take_answer-Keeps now order answer)
          λ seen. then-Keeps (save_order-Keeps s seen) return-Keeps)

  assert_refills_open-Keeps : Keeps I assert_refills_open
  unfolding assert_refills_open
  assert_refills_open-Keeps =
      bind-Keeps (read-Keeps {f = closed "kill_refills"})
        λ paused. raise_if-Keeps paused (permission_error "Refills are temporarily paused.")

  pub request_refill-Keeps :
      (order : Order) (u : User) (answer : Option String) → Keeps I (request_refill order u answer)
  unfolding request_refill
  request_refill-Keeps order u answer = then-Keeps assert_refills_open-Keeps (
      then-Keeps (raise_if-Keeps (not (may_act order u)) _) (
        then-Keeps (raise_if-Keeps (not order.snapshot.is_refillable) _) (
          then-Keeps (raise_if-Keeps (not (is_refillable_status order.status)) _) (
            then-Keeps (raise_if-Keeps (is_empty order.provider_order_id) _) (
              bind-Keeps (found_or-Keeps _ answer)
                λ refill_id. record_event-Keeps s _ OrderStatus.refilling _)))))

  cancel_owner-Keeps : (owner : Option User) (order : Order) → Keeps I (cancel_owner owner order)
  unfolding cancel_owner cancel_funds release_held refund_owed pay_owed
  cancel_owner-Keeps none order = return-Keeps
  cancel_owner-Keeps (some row) order = if-Keeps (moves_no_money order) return-Keeps (
      if-Keeps (is_held_status order.status)
        (then-Keeps
          (s.releases order.user_id order.charge_paise (cancel_label "Release " order)
            (cancel_key "release" order))
          return-Keeps)
        (bind-Keeps (read-Keeps {f = owed_for order}) λ owed.
          if-Keeps (leb_ℤ owed (pos 0)) return-Keeps (
            then-Keeps
              (s.credits order.user_id owed (cancel_label "Refund " order)
                (some (cancel_key "refund" order)))
              return-Keeps)))

  pub request_cancel-Keeps :
      (order : Order) (u : User) (confirmed : Bool) → Keeps I (request_cancel order u confirmed)
  unfolding request_cancel
  request_cancel-Keeps order u confirmed = then-Keeps (raise_if-Keeps (not (may_act order u)) _) (
      then-Keeps (raise_if-Keeps (not order.snapshot.is_cancelable) _) (
        then-Keeps (raise_if-Keeps (not (is_cancelable_status order.status)) _) (
          then-Keeps (raise_if-Keeps (not (is_empty order.provider_order_id) && not confirmed) _) (
            bind-Keeps (read-Keeps {f = λ db. lookup order.user_id db.users}) λ owner.
              then-Keeps (cancel_owner-Keeps owner order)
                (record_event-Keeps s order OrderStatus.canceled (some "user cancel"))))))

  release_review-Keeps : (order : Order) (actor : String) → Keeps I (release_review order actor)
  unfolding release_review
  release_review-Keeps order actor =
      bind-Keeps
        (fail_and_release-Keeps s order.user_id order order.charge_paise "Not accepted by provider"
          "review")
        λ failed.
          then-Keeps (audit-Keeps s actor "order.review.release" (some order.public_id) none)
            return-Keeps

  attach_review-Keeps : (order : Order) (id actor : String) → Keeps I (attach_review order id actor)
  unfolding attach_review
  attach_review-Keeps order id actor = then-Keeps (s.captures _ _ _ _) (
      bind-Keeps (record_event-Keeps s _ OrderStatus.processing _)
        λ moved. then-Keeps (audit-Keeps s _ _ _ _) return-Keeps)

  pub resolve_review_order-Keeps :
      (order : Order) (release_funds : Bool) (attach actor : String)
      → Keeps I (resolve_review_order order release_funds attach actor)
  unfolding resolve_review_order
  resolve_review_order-Keeps order release_funds attach actor =
      then-Keeps
        (raise_if-Keeps (not (is_review order.status)) (order_error "Order is not under review"))
        (then-Keeps
          (raise_if-Keeps (not_one_choice release_funds attach)
            (order_error "Choose exactly one: release the funds or attach a provider order id"))
          (bind-Keeps (read-Keeps {f = λ db. lookup order.user_id db.users}) λ owner.
            then-Keeps (found_or-Keeps (order_error "Order owner not found") owner) (
              if-Keeps release_funds (release_review-Keeps order actor)
                (attach_review-Keeps order attach actor))))

  flag_order-Keeps : (order : Order) → Keeps I (flag_order order)
  unfolding flag_order
  flag_order-Keeps order =
      bind-Keeps (record_event-Keeps s _ OrderStatus.review _)
        λ held. then-Keeps (audit-Keeps s _ _ _ _) return-Keeps

  flag_all-Keeps : (orders : List Order) → Keeps I (flag_all orders)
  unfolding flag_all
  flag_all-Keeps [] = return-Keeps
  flag_all-Keeps (o ∷ os) =
      bind-Keeps (flag_order-Keeps o) λ flagged. bind-Keeps (flag_all-Keeps os) λ rest. return-Keeps

  pub flag_stuck_orders-Keeps :
      (older_than limit : ℕ) → Keeps I (flag_stuck_orders older_than limit)
  unfolding flag_stuck_orders
  flag_stuck_orders-Keeps older_than limit = bind-Keeps read-Keeps λ stuck. flag_all-Keeps stuck
