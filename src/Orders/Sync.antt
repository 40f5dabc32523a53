-- ===== src/Orders/Sync.antt =====
-- `sync_order_status` of app/orders.py.
use smmfalcron.Prelude.{
  ℕ, String, Bool, true, false, not, Option, none, some, ◌&&◌, ◌||◌, ◌==◌, string_eq, nat_eq,
  nat_eqb, if◌then◌else◌,
}
use smmfalcron.Prelude.Int.{ℤ, eqb_ℤ}
use smmfalcron.Models.{
  Order, OrderStatus, status_code, is_terminal, is_refunded, is_completed, is_partial,
}
use smmfalcron.Env.{Env}
use smmfalcron.Session.{
  Session, ◌>>=◌, ◌>>◌, return, read, throw, raise_if, unexpected, database_error,
}
use smmfalcron.Referrals.{credit_order_commission}
use smmfalcron.Orders.Steps.{save_order, record_event}
use smmfalcron.Orders.Refund.{maybe_partial_refund, refund_if_needed}

-- `ProviderStatus` of app/adapters/base.py
pub record ProviderStatus : Type 0 where
  pub status : OrderStatus
  pub start_count : Option ℤ
  pub remains : Option ℤ

-- What asking the provider comes to: a status, a `ProviderError`, or another exception, as that of
-- `adapter_for` on a provider without a row.
pub data ProviderReply : Type 0 where
  answered : ProviderStatus → ProviderReply
  refused crashed : ProviderReply

abbrev pub same_status : OrderStatus → OrderStatus → Bool
same_status a b = nat_eqb (status_code a) (status_code b)

-- `if mapped in {"cancelled"}: mapped = "canceled"`
unfoldable pub map_status : OrderStatus → OrderStatus
map_status OrderStatus.cancelled = OrderStatus.canceled
map_status s = s

abbrev pub status_word : OrderStatus → String
status_word OrderStatus.canceled = "canceled"
status_word OrderStatus.refunded = "refunded"
status_word OrderStatus.failed = "failed"
status_word _ = ""

-- `mapped in {"canceled", "refunded", "failed"}`
abbrev pub is_closing : OrderStatus → Bool
is_closing OrderStatus.canceled = true
is_closing OrderStatus.refunded = true
is_closing OrderStatus.failed = true
is_closing _ = false

-- A new count, where the provider gives one that is not the stored one.
abbrev differs : Option ℤ → Option ℤ → Bool
differs old none = false
differs none (some n) = true
differs (some m) (some n) = not (eqb_ℤ m n)

abbrev newer : Option ℤ → Option ℤ → Option ℤ
newer old none = old
newer old (some n) = some n

abbrev pub take_counts : Order → ProviderStatus → Order
take_counts order st = record order {
  start_count = newer order.start_count st.start_count;
  remains = newer order.remains st.remains;
}

abbrev is_none {ℓ} : {A : Type ℓ} → Option A → Bool
is_none none = true
is_none (some a) = false

abbrev pub is_empty : Option String → Bool
is_empty none = true
is_empty (some s) = s == ""

-- `order.status in TERMINAL_STATUSES or not order.provider_order_id`
unfoldable pub not_synced : Order → Bool
not_synced order = is_terminal order.status || is_empty order.provider_order_id

-- `mapped in {...} and order.status != "refunded"`
unfoldable pub needs_refund : Order → OrderStatus → Bool
needs_refund order mapped = is_closing mapped && not (is_refunded order.status)

module _ ⦃env : Env⦄ where
  -- `if mapped == "partial" and status.remains is not None`
  unfoldable pub partial_step : Order → OrderStatus → Option ℤ → Session (Unit {0})
  partial_step order mapped none = return tt
  partial_step order mapped (some n) =
      if is_partial mapped then maybe_partial_refund order n else return tt

  -- `if mapped in {...} and order.status != "refunded"`: the event is recorded already, so
  -- `order.status` is `mapped`.
  unfoldable pub refund_step : Order → OrderStatus → Session Order
  refund_step order mapped =
      if needs_refund order mapped
      then refund_if_needed order mapped (status_word mapped)
      else return order

  -- What follows a change of the status, once it is recorded.
  unfoldable pub settle_change : Order → OrderStatus → Option ℤ → Session Order
  settle_change moved mapped remains = do
    partial_step moved mapped remains
    settled ← refund_step moved mapped
    (if is_completed mapped
        then (do credit_order_commission settled; return settled)
        else return settled)

  unfoldable pub after_change : Order → OrderStatus → Option ℤ → Session Order
  after_change order mapped remains = do
    moved ← record_event order mapped (some "provider sync")
    settle_change moved mapped remains

  abbrev pub fits : Option ℤ → Bool
  fits none = true
  fits (some n) = env.fits_integer n

  -- `start_count` and `remains` are `Integer` columns, and what the provider gives goes there
  -- unchecked.
  unfoldable pub too_wide : ProviderStatus → Bool
  too_wide st = not (fits st.start_count && fits st.remains)

  -- `now` is the time of the poll.
  unfoldable pub synced : ℕ → Order → ProviderStatus → Order → Order
  synced now order st settled = record settled {
    updated_at =
        (if differs order.start_count st.start_count
            || (differs order.remains st.remains
                || not (same_status (map_status st.status) order.status))
          then now
          else settled.updated_at);
    last_synced_at = some now;
  }

  unfoldable pub move_order : Order → ProviderStatus → Session Order
  move_order order st =
      if same_status (map_status st.status) order.status
      then return (take_counts order st)
      else after_change (take_counts order st) (map_status st.status) st.remains

  -- Counts that their columns do not take make the flush of the order raise: that in `_record_event`,
  -- or the one at the commit where the status stays.
  unfoldable pub take_answer : ℕ → Order → ProviderReply → Session Order
  take_answer now order refused = return (record order { last_synced_at = some now })
  take_answer now order crashed = throw unexpected
  take_answer now order (answered st) = do
    raise_if (too_wide st) database_error
    settled ← move_order order st
    return (synced now order st settled)

  unfoldable pub sync_order_status : Order → ProviderReply → Session Order
  sync_order_status order answer = if not_synced order then return order else (do
    now ← read (λ db. db.now)
    seen ← take_answer now order answer
    save_order seen
    return seen)
