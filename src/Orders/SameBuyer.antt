-- ===== src/Orders/SameBuyer.antt =====
-- The order that `sync_order_status` of app/orders.py returns is the one that it was given.
use smmfalcron.Prelude.{◌≡◌, refl, ℕ, Option, some, String, string_eq, nat_eq, append}
use smmfalcron.Prelude.Int.{ℤ}
use smmfalcron.Models.{Db, Order, OrderStatus, is_completed, is_refunded}
use smmfalcron.Env.{Env}
use smmfalcron.Session.{Ensures, return, read, ◌>>=◌, ◌>>◌, database_error}
use smmfalcron.Session.Rules.{bind-Ensures, if-Ensures, raise_if-Ensures, any_Ensures}
use smmfalcron.Referrals.{credit_order_commission}
use smmfalcron.Orders.Steps.{save_order, record_event}
use smmfalcron.Orders.Refund.{
  refunded_note, refund_key, owed_for, no_refund, pay_back, pay_refund, refund_if_needed,
}
use smmfalcron.Orders.Sync.{
  ProviderStatus, ProviderReply, answered, refused, crashed, too_wide, not_synced, same_status,
  map_status, take_counts, status_word, needs_refund, partial_step, refund_step, settle_change,
  after_change, synced, move_order, take_answer, sync_order_status,
}

-- An order with the id for people and the buyer of another.
abbrev pub SameBuyer : Order → Order → Db → Type 0
SameBuyer order after db = (after.user_id ≡ order.user_id) × (after.public_id ≡ order.public_id)

module _ ⦃env : Env⦄ (order : Order) where
  pay_refund-SameBuyer :
      (owed : ℤ) (mapped : OrderStatus) (word : String) (db : Db)
      → Ensures (SameBuyer order) (pay_refund order owed mapped word db)
  unfolding pay_refund record_event save_order
  pay_refund-SameBuyer owed mapped word db =
      bind-Ensures (SameBuyer order) (λ _ _. Unit {0})
        (pay_back order owed (refunded_note word order) (refund_key order word)) _ db
        (any_Ensures (pay_back order owed (refunded_note word order) (refund_key order word) db))
        λ _ after _.
          if-Ensures (SameBuyer order) (is_refunded mapped) (return order)
            (record_event order OrderStatus.refunded (some (append "auto-refund after " word)))
            after (λ _. (refl, refl)) (λ _. (refl, refl))

  refund_step-SameBuyer :
      (mapped : OrderStatus) (db : Db) → Ensures (SameBuyer order) (refund_step order mapped db)
  unfolding refund_step refund_if_needed
  refund_step-SameBuyer mapped db =
      if-Ensures (SameBuyer order) (needs_refund order mapped)
        (refund_if_needed order mapped (status_word mapped)) (return order) db
        (λ _.
          if-Ensures (SameBuyer order) (no_refund _ _ order (owed_for order db)) (return order)
            (pay_refund order (owed_for order db) mapped (status_word mapped)) db
            (λ _. (refl, refl))
            (λ _. pay_refund-SameBuyer (owed_for order db) mapped (status_word mapped) db))
        (λ _. (refl, refl))

  settle_change-SameBuyer :
      (mapped : OrderStatus) (remains : Option ℤ) (db : Db)
      → Ensures (SameBuyer order) (settle_change order mapped remains db)
  unfolding settle_change
  settle_change-SameBuyer mapped remains db =
      bind-Ensures (SameBuyer order) (λ _ _. Unit {0}) (partial_step order mapped remains) _ db
        (any_Ensures (partial_step order mapped remains db))
        λ _ after _.
          bind-Ensures (SameBuyer order) (SameBuyer order) (refund_step order mapped) _ after
            (refund_step-SameBuyer mapped after)
            λ settled last same.
              if-Ensures (SameBuyer order) (is_completed mapped)
                (credit_order_commission settled >> return settled) (return settled) last
                (λ _.
                  bind-Ensures (SameBuyer order) (λ _ _. Unit {0}) (credit_order_commission settled)
                    (λ _. return settled) last (any_Ensures (credit_order_commission settled last))
                    λ _ _ _. same)
                (λ _. same)

module _ ⦃env : Env⦄ where
  move_order-SameBuyer :
      (order : Order) (st : ProviderStatus) (db : Db)
      → Ensures (SameBuyer order) (move_order order st db)
  unfolding move_order after_change record_event save_order
  move_order-SameBuyer order st db =
      if-Ensures (SameBuyer order) (same_status (map_status st.status) order.status)
        (return (take_counts order st))
        (after_change (take_counts order st) (map_status st.status) st.remains) db
        (λ _. (refl, refl))
        (λ _.
          settle_change-SameBuyer
            (record (take_counts order st) { status = map_status st.status; updated_at = db.now })
            (map_status st.status) st.remains _)

  take_answer-SameBuyer :
      (order : Order) (now : ℕ) (answer : ProviderReply) (db : Db)
      → Ensures (SameBuyer order) (take_answer now order answer db)
  unfolding take_answer synced
  take_answer-SameBuyer order now refused db = (refl, refl)
  take_answer-SameBuyer order now crashed db = tt
  take_answer-SameBuyer order now (answered st) db =
      raise_if-Ensures (SameBuyer order) (too_wide st) database_error
        (move_order order st >>= λ settled. return (synced now order st settled)) db
        λ _.
          bind-Ensures (SameBuyer order) (SameBuyer order) (move_order order st)
            (λ settled. return (synced now order st settled)) db (move_order-SameBuyer order st db)
            λ settled after same. same

  pub sync_order_status-SameBuyer :
      (order : Order) (answer : ProviderReply) (db : Db)
      → Ensures (SameBuyer order) (sync_order_status order answer db)
  unfolding sync_order_status save_order
  sync_order_status-SameBuyer order answer db =
      if-Ensures (SameBuyer order) (not_synced order) (return order)
        (read (λ d. d.now) >>= λ now.
          (take_answer now order answer >>= λ seen. (save_order seen >> return seen)))
        db (λ _. (refl, refl))
        (λ _.
          bind-Ensures (SameBuyer order) (SameBuyer order) (take_answer db.now order answer)
            (λ seen. save_order seen >> return seen) db
            (take_answer-SameBuyer order db.now answer db) λ seen after same. same)
