-- ===== src/Orders/Steps.antt =====
-- The helpers of app/orders.py that every operation uses: events, coupon uses, failing an order, and
-- what was refunded so far.
use smmfalcron.Prelude.{
  ℕ, ◌-◌, String, Bool, false, not, Option, none, some, List, [], ◌∷◌, ◌&&◌, ◌==◌, string_eq,
  nat_eq, ltb, select, truncate, if◌then◌else◌, join_with,
}
use smmfalcron.Prelude.Int.{ℤ, pos, ◌+ℤ◌}
use smmfalcron.Table.{lookup, put}
use smmfalcron.Models.{
  Db, Order, OrderEvent, OrderStatus, Coupon, CouponRedemption, LedgerEntry, is_credit,
}
use smmfalcron.Env.{Env}
use smmfalcron.Security.{new_idempotency_key}
use smmfalcron.Session.{Session, ◌>>=◌, ◌>>◌, return, read, write, one_or_none}
use smmfalcron.Wallet.{Label, release}

-- Writing a changed order back.
unfoldable pub save_order : Order → Session (Unit {0})
save_order order = write (λ db. record db { orders = put order.id order db.orders })

-- `_record_event`
unfoldable pub record_event : Order → OrderStatus → Option String → Session Order
unfolding save_order
record_event order to_status note = do
  now ← read (λ db. db.now)
  let event : OrderEvent = record {
    order_id = order.id;
    from_status = order.status;
    to_status = to_status;
    note = note;
    created_at = now;
  }
  let moved = record order { status = to_status; updated_at = now }
  write (λ db. record db { order_events = event ∷ db.order_events })
  save_order moved
  return moved

abbrev is_use_of : String → ℕ → CouponRedemption → Bool
is_use_of code order_id r =
    r.coupon_code == code && elim r.order_id [ none ↦ false | some o ↦ o == order_id ]

-- One use fewer, where there is one.
abbrev give_back : Coupon → Coupon
give_back c = if ltb 0 c.used_count then record c { used_count = c.used_count - 1 } else c

abbrev drop_use : String → ℕ → Db → Db
drop_use code order_id db = record db {
  redemptions = select (λ r. not (is_use_of code order_id r)) db.redemptions;
  coupons = elim (lookup code db.coupons) [
    | none ↦ db.coupons
    | some c ↦ put code (give_back c) db.coupons
  ];
}

abbrev pub drop_found : String → ℕ → Option CouponRedemption → Session (Unit {0})
drop_found code order_id none = return tt
drop_found code order_id (some r) = write (drop_use code order_id)

abbrev pub release_code : Order → Option String → Session (Unit {0})
release_code order none = return tt
release_code order (some code) = if code == "" then return tt else do
  rows ← read (λ db. select (is_use_of code order.id) db.redemptions)
  redemption ← one_or_none rows
  drop_found code order.id redemption

-- `_release_coupon_use`
unfoldable pub release_coupon_use : Order → Session (Unit {0})
release_coupon_use order = release_code order order.coupon_code

abbrev pub order_label : String → Order → Label
order_label reason order = record {
  reason = reason;
  reference_type = some "order";
  reference_id = some order.public_id;
  created_by = none;
  meta_json = none;
}

module _ ⦃env : Env⦄ where
  -- `_fail_and_release`
  unfoldable pub fail_and_release : ℕ → Order → ℤ → String → String → Session Order
  fail_and_release uid order charge reason tag = do
    release uid charge
        (order_label (join_with "" ("Release " ∷ order.public_id ∷ " (" ∷ tag ∷ ")" ∷ [])) order)
        (new_idempotency_key ("release" ∷ order.public_id ∷ tag ∷ []))
    let failing = record order { fail_reason = some (truncate 255 reason) }
    release_coupon_use failing
    record_event failing OrderStatus.failed (some (truncate 255 reason))

abbrev is_text : String → Option String → Bool
is_text s none = false
is_text s (some t) = t == s

-- Is the entry a credit to the order's owner, for the order?
abbrev pub is_refund_of : ℕ → String → LedgerEntry → Bool
is_refund_of uid public_id e =
    is_text "order" e.reference_type
    && (is_text public_id e.reference_id && (is_credit e.entry_type && e.user_id == uid))

unfoldable pub refunds_in : ℕ → String → List LedgerEntry → ℤ
refunds_in uid public_id [] = pos 0
refunds_in uid public_id (e ∷ es) =
    let rest = refunds_in uid public_id es in
    if is_refund_of uid public_id e then e.amount_paise +ℤ rest else rest

unfoldable pub refunded_so_far : Order → Db → ℤ
refunded_so_far order db = refunds_in order.user_id order.public_id db.ledger
