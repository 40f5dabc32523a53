-- ===== src/Orders/Capped.antt =====
-- What app/orders.py pays back for an order never exceeds what it charged.
use smmfalcron.Prelude.{
  ℕ, ◌≡◌, refl, inl, inr, String, Option, some, nat_eq, string_eq, Bool-cases, append, arith,
}
use smmfalcron.Prelude.Int.{
  ℤ, pos, ◌+ℤ◌, ◌-ℤ◌, ◌≤ℤ◌, max_ℤ, min_ℤ, int_laws, max-le, ≤ℤ_trans, min-le-right,
}
use smmfalcron.Models.{Db, User, Order, OrderStatus, EntryType, LedgerEntry, is_refunded}
use smmfalcron.Env.{Env}
use smmfalcron.Session.{write}
use smmfalcron.Session.Keeps.{Keeps, bind-Reaches, Reaches, return-Keeps, if-Keeps}
use smmfalcron.Wallet.{payment_key, Label, credit, ledger_entry, push}
use smmfalcron.Wallet.Rules.{once-ends, append_entry-ends}
use smmfalcron.Orders.Steps.{
  is_refund_of, refunds_in, refunded_so_far, order_label, record_event, save_order,
}
use smmfalcron.Table.{lookup}
use mathlib.Core.Path.{subst, sym}
use smmfalcron.Orders.Refund.{
  owed_for, pay_back, nothing_left, no_partial_refund, no_refund, pay_refund, partial_share,
  partial_key, refund_key, refunded_note, maybe_partial_refund, refund_if_needed,
}

-- The refunds of an order, named by its owner and its public id, add up to at most `cap`.
pub record Capped (uid : ℕ) (public_id : String) (cap : ℤ) (db : Db) : Type 0 where
  pub under : refunds_in uid public_id db.ledger ≤ℤ cap

module _ (uid : ℕ) (public_id : String) (cap : ℤ) where
  push-Capped :
      (u : User) (b r : ℤ) (entry : LedgerEntry) (db : Db)
      → Capped uid public_id cap db
      → refunds_in uid public_id db.ledger +ℤ entry.amount_paise ≤ℤ cap
      → Capped uid public_id cap (push u b r entry db)
  unfolding refunds_in
  push-Capped u b r entry db h room = elim (Bool-cases (is_refund_of uid public_id entry)) [
    | inl counts ↦ record { under = rw counts (omega (int_laws, room)) }
    | inr other ↦ record { under = rw other h.under }
  ]

  module _ ⦃env : Env⦄ where
    pub credit-Capped :
        (to : ℕ) (amount : ℤ) (label : Label) (given : Option String) (db : Db)
        → Capped uid public_id cap db
        → refunds_in uid public_id db.ledger +ℤ amount ≤ℤ cap
        → Capped uid public_id cap (credit to amount label given db).1
    unfolding credit
    credit-Capped to amount label given db h room =
        once-ends (λ _ after. Capped uid public_id cap after) amount _ to _ _ db (λ _. h)
          (λ _ _ _ _ _. h)
          λ u _ at fresh.
            append_entry-ends (λ _ after. Capped uid public_id cap after) u amount EntryType.credit
              label _ _ _ db (λ _. h)
              λ low high.
                (let key = payment_key "credit" amount label given u in
                  let b = u.cached_balance_paise +ℤ amount in
                  push-Capped u b u.cached_reserved_paise
                    (ledger_entry db.now u amount EntryType.credit label key b
                      u.cached_reserved_paise)
                    db h room)

-- What is owed fits under the charge.
pub owed-fits :
    (refunded charge refund : ℤ)
    → refunded ≤ℤ charge
    → refund ≤ℤ max_ℤ (pos 0) (charge -ℤ refunded)
    → refunded +ℤ refund ≤ℤ charge
owed-fits refunded charge refund under most =
    let left : max_ℤ (pos 0) (charge -ℤ refunded) ≤ℤ charge -ℤ refunded =
      max-le (pos 0) (charge -ℤ refunded) (charge -ℤ refunded) (omega (int_laws, under))
        (omega arith) in
    let fits : refund ≤ℤ charge -ℤ refunded =
      ≤ℤ_trans refund (max_ℤ (pos 0) (charge -ℤ refunded)) (charge -ℤ refunded) most left in
    omega (int_laws, fits)

-- A session that writes rows other than the ledger's keeps the cap.
pub write-Capped :
    {uid : ℕ} {public_id : String} {cap : ℤ} (f : Db → Db)
    → ((db : Db) → (f db).ledger ≡ db.ledger)
    → Keeps (Capped uid public_id cap) (write f)
write-Capped {uid} {public_id} {cap} f same = record {
  kept = λ db h. record {
    under = subst (λ es. refunds_in uid public_id es ≤ℤ cap) (sym (same db)) h.under;
  };
}

module _ {uid : ℕ} {public_id : String} {cap : ℤ} where
  pub record_event-Capped :
      (order : Order) (status : OrderStatus) (remark : Option String)
      → Keeps (Capped uid public_id cap) (record_event order status remark)
  unfolding record_event save_order
  record_event-Capped order status remark = record { kept = λ db h. record { under = h.under } }

  pay_back-Capped :
      ⦃env : Env⦄ (order : Order) (amount : ℤ) (reason key : String) {db : Db}
      → Capped uid public_id cap db
      → refunds_in uid public_id db.ledger +ℤ amount ≤ℤ cap
      → Reaches (Capped uid public_id cap) (pay_back order amount reason key) db
  unfolding pay_back
  pay_back-Capped order amount reason key {db} h room =
      bind-Reaches
        (record {
          reached =
              credit-Capped uid public_id cap order.user_id amount (order_label reason order)
                (some key) db h room;
        })
        λ _. write-Capped _ (λ _. refl)

module _ ⦃env : Env⦄ where
  pub maybe_partial_refund-Capped :
      (order : Order) (remains : ℤ) (db : Db)
      → Capped order.user_id order.public_id order.charge_paise db
      → Capped order.user_id order.public_id order.charge_paise
          (maybe_partial_refund order remains db).1
  unfolding maybe_partial_refund refunded_so_far
  maybe_partial_refund-Capped order remains db h = elim (Bool-cases (nothing_left order remains)) [
    | inl nothing ↦ rw nothing h
    | inr some_ ↦
        let refund = min_ℤ (partial_share order remains) (owed_for order db) in
        let already = lookup (partial_key order) db.idempotency in
        let owner = lookup order.user_id db.users in
        elim (Bool-cases (no_partial_refund already refund owner)) [
          | inl skip ↦ rw (some_, skip) h
          | inr due ↦
              rw (some_, due)
                ((pay_back-Capped order refund (append "Partial refund " order.public_id)
                  (partial_key order) h
                  (owed-fits (refunded_so_far order db) order.charge_paise refund h.under
                    (min-le-right (partial_share order remains) (owed_for order db)))).reached)
        ]
  ]

  pay_refund-Capped :
      (order : Order) (owed : ℤ) (mapped : OrderStatus) (word : String) {db : Db} {uid : ℕ}
      {public_id : String} {cap : ℤ}
      → Capped uid public_id cap db
      → refunds_in uid public_id db.ledger +ℤ owed ≤ℤ cap
      → Reaches (Capped uid public_id cap) (pay_refund order owed mapped word) db
  unfolding pay_refund
  pay_refund-Capped order owed mapped word h room =
      bind-Reaches
        (pay_back-Capped order owed (refunded_note word order) (refund_key order word) h room)
        λ _.
          if-Keeps (is_refunded mapped) (return-Keeps {a = order}) (
            record_event-Capped order OrderStatus.refunded
              (some (append "auto-refund after " word)))

  pub refund_if_needed-Capped :
      (order : Order) (mapped : OrderStatus) (word : String) (db : Db)
      → Capped order.user_id order.public_id order.charge_paise db
      → Capped order.user_id order.public_id order.charge_paise
          (refund_if_needed order mapped word db).1
  unfolding refund_if_needed refunded_so_far
  refund_if_needed-Capped order mapped word db h =
      let owed = owed_for order db in
      let already = lookup (refund_key order word) db.idempotency in
      let owner = lookup order.user_id db.users in
      elim (Bool-cases (no_refund already owner order owed)) [
        | inl skip ↦ rw skip h
        | inr due ↦ rw due (
            (pay_refund-Capped order owed mapped word h (
              owed-fits (refunded_so_far order db) order.charge_paise owed h.under
                (omega arith))).reached)
      ]
