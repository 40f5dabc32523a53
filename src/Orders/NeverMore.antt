-- ===== src/Orders/NeverMore.antt =====
-- The operations of app/orders.py that pay back: no run of them refunds more than the charge.
use smmfalcron.Prelude.{
  ℕ, ◌≡◌, refl, inl, inr, String, Bool, true, false, Option, none, some, [], ◌∷◌, nat_eq, string_eq,
  if◌then◌else◌, ◌&&◌, not, Bool-cases, append, arith, take,
}
use smmfalcron.Prelude.Int.{◌+ℤ◌, ℤ, pos, ◌≤ℤ◌, leb_ℤ, ltb_ℤ}
use smmfalcron.Table.{lookup, put}
use smmfalcron.Models.{
  Db, User, Order, OrderStatus, EntryType, LedgerEntry, is_completed, is_credit, is_partial,
  is_held_status, is_cancelable_status,
}
use smmfalcron.Env.{Env}
use smmfalcron.Security.{new_idempotency_key}
use smmfalcron.Session.{Session, order_error, unexpected, database_error}
use smmfalcron.Session.Keeps.{
  bind-Reaches, Keeps, Reaches, then-Keeps, bind-Keeps, read-Keeps, return-Keeps, raise_if-Keeps,
  if-Keeps, throw-Keeps,
}
use smmfalcron.Wallet.{Label, append_entry, credit, release, ledger_entry}
use smmfalcron.Wallet.Rules.{once-ends, append_entry-ends}
use smmfalcron.Referrals.{
  has, completed_ids, referrer_of, earns_nothing, referral_label, commission_paise, pay_commission,
  commission_for, credit_order_commission,
}
use smmfalcron.Orders.Steps.{is_refund_of, refunds_in, refunded_so_far, record_event, save_order}
use smmfalcron.Orders.Refund.{owed_for}
use smmfalcron.Orders.Capped.{
  Capped, write-Capped, record_event-Capped, credit-Capped, owed-fits, maybe_partial_refund-Capped,
  refund_if_needed-Capped,
}
use smmfalcron.Orders.Sync.{
  ProviderReply, answered, refused, crashed, too_wide, not_synced, same_status, map_status,
  take_counts, status_word, needs_refund, partial_step, refund_step, settle_change, after_change,
  move_order, take_answer, sync_order_status,
}
use smmfalcron.Orders.Actions.{
  pay_owed, may_act, is_empty, cancel_label, cancel_key, moves_no_money, release_held, refund_owed,
  cancel_funds, cancel_owner, request_cancel,
}

if-holds {ℓ} :
    {A : Type ℓ} (P : A → Type 0) (c : Bool) (m n : A) → P m → P n → P (if c then m else n)
if-holds P true m n hm hn = hm
if-holds P false m n hm hn = hn

not_a_refund :
    (uid : ℕ) (public_id : String) (e : LedgerEntry)
    → is_credit e.entry_type ≡ false
    → is_refund_of uid public_id e ≡ false
not_a_refund uid public_id e h = ground (arith, h)

module _ {uid : ℕ} {public_id : String} {cap : ℤ} where
  append_other-Capped :
      (u : User) (amount : ℤ) (kind : EntryType) (label : Label) (key : String) (b r : ℤ) (db : Db)
      → is_refund_of uid public_id (ledger_entry db.now u amount kind label key b r) ≡ false
      → Capped uid public_id cap db
      → Capped uid public_id cap (append_entry u amount kind label key b r db).1
  unfolding refunds_in
  append_other-Capped u amount kind label key b r db other h =
      append_entry-ends (λ _ after. Capped uid public_id cap after) u amount kind label key b r db
        (λ _. h) λ low high. record { under = rw other h.under }

  release-Capped :
      (to : ℕ) (amount : ℤ) (label : Label) (given : String)
      → Keeps (Capped uid public_id cap) (release to amount label given)
  unfolding release
  release-Capped to amount label given = record {
    kept = λ db h.
        once-ends (λ _ after. Capped uid public_id cap after) amount _ to _ _ db (λ _. h)
          (λ _ _ _ _ _. h)
          λ u _ at fresh.
            let kept = λ (r : ℤ).
              append_other-Capped u (pos 0) EntryType.release label given u.cached_balance_paise r
                db
                (not_a_refund uid public_id
                  (ledger_entry db.now u (pos 0) EntryType.release label given
                    u.cached_balance_paise r)
                  refl)
                h in
            if-holds (λ (m : Session LedgerEntry). Capped uid public_id cap (m db).1)
              (ltb_ℤ u.cached_reserved_paise amount) _ _
              (if-holds (λ (m : Session LedgerEntry). Capped uid public_id cap (m db).1)
                (leb_ℤ u.cached_reserved_paise (pos 0)) _ _ (kept _) (kept _))
              (kept _);
  }

  module _ ⦃env : Env⦄ where
    credit_other-Capped :
        (to : ℕ) (amount : ℤ) (reason reference key : String)
        → Keeps
            (Capped uid public_id cap)
            (credit to amount (referral_label reason reference) (some key))
    unfolding credit
    credit_other-Capped to amount reason reference key = record {
      kept = λ db h.
          once-ends (λ _ after. Capped uid public_id cap after) amount _ to _ _ db (λ _. h)
            (λ _ _ _ _ _. h)
            λ u _ at fresh.
              append_other-Capped u amount EntryType.credit (referral_label reason reference) _ _ _
                db refl h;
    }

    pay_commission-Capped :
        (to : Option User) (amount : ℤ) (reason reference key : String)
        → Keeps
            (Capped uid public_id cap)
            (pay_commission to amount (referral_label reason reference) key)
    unfolding pay_commission
    pay_commission-Capped none amount reason reference key = return-Keeps
    pay_commission-Capped (some r) amount reason reference key =
        if-Keeps (leb_ℤ amount (pos 0)) return-Keeps (
          bind-Keeps (credit_other-Capped r.telegram_id amount reason reference key)
            λ entry. return-Keeps)

    commission_for-Capped :
        (buyer : Option User) (order : Order)
        → Keeps (Capped uid public_id cap) (commission_for buyer order)
    unfolding commission_for
    commission_for-Capped none order = return-Keeps
    commission_for-Capped (some buyer) order =
        bind-Keeps
          (read-Keeps {f = λ db. has order.id (take 3 (completed_ids buyer.telegram_id db))})
          λ first. bind-Keeps (read-Keeps {f = referrer_of buyer}) λ referrer.
            pay_commission-Capped (if first then referrer else none)
              (commission_paise order.charge_paise 8) (append "Referral 8% " order.public_id)
              order.public_id (new_idempotency_key ("reford" ∷ order.public_id ∷ []))

    credit_order_commission-Capped :
        (order : Order) → Keeps (Capped uid public_id cap) (credit_order_commission order)
    unfolding credit_order_commission
    credit_order_commission-Capped order = if-Keeps (earns_nothing order) return-Keeps (
        bind-Keeps (read-Keeps {f = λ db. lookup order.user_id db.users})
          λ row. commission_for-Capped row order)

module _ ⦃env : Env⦄ (order : Order) where
  abbrev Within : Db → Type 0
  Within db = Capped order.user_id order.public_id order.charge_paise db

  pay_owed-Within :
      (owed : ℤ) {db : Db}
      → Within db
      → refunded_so_far order db +ℤ owed ≤ℤ order.charge_paise
      → Reaches Within (pay_owed order owed) db
  unfolding pay_owed refunded_so_far
  pay_owed-Within owed {db} h room =
      bind-Reaches
        (record {
          reached =
              credit-Capped order.user_id order.public_id order.charge_paise order.user_id owed
                (cancel_label "Refund " order) (some (cancel_key "refund" order)) db h room;
        })
        λ _. return-Keeps

  refund_owed-Within : Keeps Within (refund_owed order)
  unfolding refund_owed refunded_so_far
  refund_owed-Within = record {
    kept = λ db h.
        let owed = owed_for order db in
        elim (Bool-cases (leb_ℤ owed (pos 0))) [
          | inl nothing ↦ rw nothing h
          | inr due ↦ rw due (
              (pay_owed-Within owed h (
                owed-fits (refunded_so_far order db) order.charge_paise owed h.under
                  (omega arith))).reached)
        ];
  }

  cancel_owner-Within : (owner : Option User) → Keeps Within (cancel_owner owner order)
  unfolding cancel_owner cancel_funds release_held
  cancel_owner-Within none = return-Keeps
  cancel_owner-Within (some row) = if-Keeps (moves_no_money order) return-Keeps (
      if-Keeps (is_held_status order.status)
        (then-Keeps
          (release-Capped order.user_id order.charge_paise (cancel_label "Release " order)
            (cancel_key "release" order))
          return-Keeps)
        refund_owed-Within)

  request_cancel-Within :
      (u : User) (confirmed : Bool) → Keeps Within (request_cancel order u confirmed)
  unfolding request_cancel
  request_cancel-Within u confirmed =
      then-Keeps (raise_if-Keeps (not (may_act order u)) (order_error "Not your order")) (
        then-Keeps
          (raise_if-Keeps (not order.snapshot.is_cancelable)
            (order_error "This service cannot be canceled"))
          (then-Keeps
            (raise_if-Keeps (not (is_cancelable_status order.status))
              (order_error "This order can no longer be canceled"))
            (then-Keeps
              (raise_if-Keeps (not (is_empty order.provider_order_id) && not confirmed)
                (order_error "The provider did not confirm the cancellation"))
              (bind-Keeps (read-Keeps {f = λ db. lookup order.user_id db.users}) λ owner.
                then-Keeps (cancel_owner-Within owner)
                  (record_event-Capped order OrderStatus.canceled (some "user cancel"))))))

  -- Cancelling an order, whether it returns or raises, leaves what was refunded for it within what
  -- it charged, where that held before.
  pub cancel_within_charge :
      (u : User) (confirmed : Bool) (db : Db)
      → refunded_so_far order db ≤ℤ order.charge_paise
      → refunded_so_far order (request_cancel order u confirmed db).1 ≤ℤ order.charge_paise
  unfolding refunded_so_far
  cancel_within_charge u confirmed db h =
      ((request_cancel-Within u confirmed).kept db (record { under = h })).under

module _ ⦃env : Env⦄ where
  partial_step-Within :
      (order : Order) (mapped : OrderStatus) (remains : Option ℤ)
      → Keeps (Within order) (partial_step order mapped remains)
  unfolding partial_step
  partial_step-Within order mapped none = return-Keeps
  partial_step-Within order mapped (some n) =
      if-Keeps (is_partial mapped)
        (record { kept = λ db h. maybe_partial_refund-Capped order n db h }) return-Keeps

  refund_step-Within :
      (order : Order) (mapped : OrderStatus) → Keeps (Within order) (refund_step order mapped)
  unfolding refund_step
  refund_step-Within order mapped =
      if-Keeps (needs_refund order mapped)
        (record { kept = λ db h. refund_if_needed-Capped order mapped (status_word mapped) db h })
        (return-Keeps {a = order})

  settle_change-Within :
      (order : Order) (mapped : OrderStatus) (remains : Option ℤ)
      → Keeps (Within order) (settle_change order mapped remains)
  unfolding settle_change
  settle_change-Within order mapped remains =
      then-Keeps (partial_step-Within order mapped remains) (
        bind-Keeps (refund_step-Within order mapped) λ settled.
          if-Keeps (is_completed mapped)
            (then-Keeps (credit_order_commission-Capped settled) (return-Keeps {a = settled}))
            (return-Keeps {a = settled}))

  after_change-Within :
      (order : Order) (mapped : OrderStatus) (remains : Option ℤ)
      → Keeps (Within order) (after_change order mapped remains)
  unfolding after_change record_event save_order
  after_change-Within order mapped remains = record {
    kept = λ db h.
        let moved = record order { status = mapped; updated_at = db.now } in
        (settle_change-Within moved mapped remains).kept _ (record { under = h.under });
  }

  take_answer-Within :
      (now : ℕ) (order : Order) (answer : ProviderReply)
      → Keeps (Within order) (take_answer now order answer)
  unfolding take_answer move_order
  take_answer-Within now order refused = return-Keeps
  take_answer-Within now order crashed = throw-Keeps unexpected
  take_answer-Within now order (answered st) =
      then-Keeps (raise_if-Keeps (too_wide st) database_error) (
        bind-Keeps
          (if-Keeps (same_status (map_status st.status) order.status)
            (return-Keeps {a = take_counts order st})
            (record {
              kept = λ db h.
                  (after_change-Within (take_counts order st) (map_status st.status)
                      st.remains).kept
                    db (record { under = h.under });
            }))
          λ settled. return-Keeps)

  sync-Within :
      (order : Order) (answer : ProviderReply)
      → Keeps (Within order) (sync_order_status order answer)
  unfolding sync_order_status save_order
  sync-Within order answer = if-Keeps (not_synced order) (return-Keeps {a = order}) (
      bind-Keeps (read-Keeps {f = λ db. db.now}) λ now.
        bind-Keeps (take_answer-Within now order answer) λ seen.
          then-Keeps
            (write-Capped (λ db. record db { orders = put seen.id seen db.orders }) (λ _. refl))
            (return-Keeps {a = seen}))

  -- Whatever status the provider reports, syncing an order leaves what was refunded for it within
  -- what it charged, where that held before.
  pub sync_within_charge :
      (order : Order) (answer : ProviderReply) (db : Db)
      → refunded_so_far order db ≤ℤ order.charge_paise
      → refunded_so_far order (sync_order_status order answer db).1 ≤ℤ order.charge_paise
  unfolding refunded_so_far
  sync_within_charge order answer db h =
      ((sync-Within order answer).kept db (record { under = h })).under
