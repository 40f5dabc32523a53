-- ===== src/Orders/Actions.antt =====
-- What customers and operators do to an order in app/orders.py: refill, cancel, the review of an
-- order whose outcome is unknown, and the flagging of stuck ones; and the queries.
use smmfalcron.Prelude.{
  ℕ, ◌+◌, String, Bool, true, false, not, Option, none, some, List, [], ◌∷◌, ◌&&◌, ◌||◌, ◌==◌,
  string_eq, nat_eq, leb, select, take, truncate, append, join_with, if◌then◌else◌,
}
use smmfalcron.Prelude.Int.{ℤ, pos, leb_ℤ}
use smmfalcron.Table.{lookup}
use smmfalcron.Models.{
  Db, User, Role, Order, OrderStatus, is_active_status, is_refillable_status, is_cancelable_status,
  is_held_status, is_review,
}
use smmfalcron.Env.{Env}
use smmfalcron.Security.{new_idempotency_key}
use smmfalcron.Session.{
  Session, order_error, ◌>>=◌, ◌>>◌, return, read, found_or, one_or_none, raise_if,
}
use smmfalcron.Catalog.{assert_refills_open, audit}
use smmfalcron.Referrals.{rows}
use smmfalcron.Wallet.{Label, credit, release, capture}
use smmfalcron.Orders.Steps.{record_event, order_label, fail_and_release}
use smmfalcron.Orders.Refund.{owed_for}

abbrev is_none_id : Order → Bool
is_none_id o = elim o.provider_order_id [ none ↦ true | some _ ↦ false ]

abbrev is_theirs : Option ℕ → Order → Bool
is_theirs none o = true
is_theirs (some uid) o = o.user_id == uid

abbrev is_staff : Role → Bool
is_staff Role.admin = true
is_staff Role.owner = true
is_staff _ = false

abbrev pub is_empty : Option String → Bool
is_empty none = true
is_empty (some s) = s == ""

-- `order.user_id != user.telegram_id and user.role not in {"admin", "owner"}`
abbrev pub may_act : Order → User → Bool
may_act order u = order.user_id == u.telegram_id || is_staff u.role

module _ ⦃env : Env⦄ where
  -- `answer` is the refill's id, or the text of the provider's error.
  unfoldable pub request_refill : Order → User → Option String → Session Order
  request_refill order u answer = do
    assert_refills_open
    raise_if (not (may_act order u)) (order_error "Not your order")
    raise_if (not order.snapshot.is_refillable) (order_error "This service does not support refill")
    raise_if (not (is_refillable_status order.status))
        (order_error "Refill is only available after completion")
    raise_if (is_empty order.provider_order_id) (order_error "No provider order to refill")
    refill_id ← found_or (order_error "The provider refused the refill") answer
    let extra = order.extra
    let refilled = record order {
      refill_count = order.refill_count + 1;
      extra = record extra { last_refill_id = some refill_id };
    }
    record_event refilled OrderStatus.refilling (some (append "refill " refill_id))

  abbrev pub cancel_label : String → Order → Label
  cancel_label word order =
      order_label (join_with "" (word ∷ order.public_id ∷ " (cancel)" ∷ [])) order

  abbrev pub cancel_key : String → Order → String
  cancel_key word order = new_idempotency_key (word ∷ order.public_id ∷ "cancel" ∷ [])

  unfoldable pub release_held : Order → Session (Unit {0})
  release_held order = do
    release order.user_id order.charge_paise (cancel_label "Release " order)
        (cancel_key "release" order)
    return tt

  unfoldable pub pay_owed : Order → ℤ → Session (Unit {0})
  pay_owed order owed = do
    credit order.user_id owed (cancel_label "Refund " order) (some (cancel_key "refund" order))
    return tt

  unfoldable pub refund_owed : Order → Session (Unit {0})
  refund_owed order = do
    owed ← read (owed_for order)
    (if leb_ℤ owed (pos 0) then return tt else pay_owed order owed)

  -- `not (order.charge_paise > 0 and order.status != REVIEW_STATUS)`
  unfoldable pub moves_no_money : Order → Bool
  moves_no_money order = leb_ℤ order.charge_paise (pos 0) || is_review order.status

  -- The money of a cancelled order: released while it is held, else what is still owed is paid back.
  unfoldable pub cancel_funds : Order → Session (Unit {0})
  unfolding release_held refund_owed
  cancel_funds order = if is_held_status order.status then release_held order else refund_owed order

  -- `if user_row is not None and order.charge_paise > 0`; an order under review keeps its money held.
  unfoldable pub cancel_owner : Option User → Order → Session (Unit {0})
  unfolding cancel_funds
  cancel_owner none order = return tt
  cancel_owner (some row) order = if moves_no_money order then return tt else cancel_funds order

  -- `confirmed` says whether the provider confirmed the cancellation.
  unfoldable pub request_cancel : Order → User → Bool → Session Order
  unfolding cancel_owner
  request_cancel order u confirmed = do
    raise_if (not (may_act order u)) (order_error "Not your order")
    raise_if (not order.snapshot.is_cancelable) (order_error "This service cannot be canceled")
    raise_if (not (is_cancelable_status order.status))
        (order_error "This order can no longer be canceled")
    raise_if (not (is_empty order.provider_order_id) && not confirmed)
        (order_error "The provider did not confirm the cancellation")
    owner ← read (λ db. lookup order.user_id db.users)
    cancel_owner owner order
    record_event order OrderStatus.canceled (some "user cancel")

  unfoldable pub release_review : Order → String → Session Order
  release_review order actor = do
    failed ←
        fail_and_release order.user_id order order.charge_paise "Not accepted by provider" "review"
    audit actor "order.review.release" (some order.public_id) none
    return failed

  unfoldable pub attach_review : Order → String → String → Session Order
  attach_review order provider_order_id actor = do
    let placed = record order { provider_order_id = some (truncate 64 provider_order_id) }
    capture order.user_id order.charge_paise (order_label (append "Charge " order.public_id) placed)
        (new_idempotency_key ("capture" ∷ order.public_id ∷ []))
    let cleared = record placed { fail_reason = none }
    moved ←
        record_event cleared OrderStatus.processing (
          some
            (join_with "" ("Provider order " ∷ truncate 64 provider_order_id ∷ " (manual)" ∷ [])))
    audit actor "order.review.attach" (some order.public_id) none
    return moved

  -- `bool(release_funds) == bool(attach_provider_order_id)`
  unfoldable pub not_one_choice : Bool → String → Bool
  not_one_choice release_funds attach = if release_funds then not (attach == "") else attach == ""

  -- `attach` is the provider's order id, or the empty text for none.
  unfoldable pub resolve_review_order : Order → Bool → String → String → Session Order
  resolve_review_order order release_funds attach actor = do
    raise_if (not (is_review order.status)) (order_error "Order is not under review")
    raise_if (not_one_choice release_funds attach)
        (order_error "Choose exactly one: release the funds or attach a provider order id")
    owner ← read (λ db. lookup order.user_id db.users)
    found_or (order_error "Order owner not found") owner
    if release_funds then release_review order actor else attach_review order attach actor

abbrev pub is_stuck : ℕ → ℕ → Order → Bool
is_stuck now older_than o =
    is_held_status o.status && (is_none_id o && leb (o.updated_at + older_than) now)

unfoldable pub flag_order : Order → Session Order
flag_order order = do
  let waiting = record order { fail_reason = some "Waiting for provider confirmation" }
  held ← record_event waiting OrderStatus.review (some "stuck after reserve; needs operator review")
  audit "system" "order.review" (some order.public_id) (some "stuck before provider outcome")
  return held

unfoldable pub flag_all : List Order → Session (List Order)
flag_all [] = return []
flag_all (o ∷ os) = do flagged ← flag_order o; rest ← flag_all os; return (flagged ∷ rest)

unfoldable pub flag_stuck_orders : ℕ → ℕ → Session (List Order)
unfolding flag_all flag_order
flag_stuck_orders older_than limit = do
  stuck ← read (λ db. take limit (select (is_stuck db.now older_than) (rows db.orders)))
  flag_all stuck

-- `order_by(Order.updated_at.asc())`; among equals, the earlier row first.
unfoldable pub insert_by_update : Order → List Order → List Order
insert_by_update o [] = o ∷ []
insert_by_update o (p ∷ ps) =
    let rest = insert_by_update o ps in
    if leb o.updated_at p.updated_at then o ∷ p ∷ ps else p ∷ rest

unfoldable pub by_update : List Order → List Order
unfolding insert_by_update
by_update [] = []
by_update (o ∷ os) = insert_by_update o (by_update os)

unfoldable pub list_open_orders : ℕ → Db → List Order
unfolding by_update
list_open_orders limit db =
    take limit
      (by_update (select (λ o. is_active_status o.status && not (is_none_id o)) (rows db.orders)))

unfoldable pub list_review_orders : ℕ → Db → List Order
list_review_orders limit db = take limit (select (λ o. is_review o.status) (rows db.orders))

-- With a user given, another user's order is not found.
unfoldable pub get_order_for_user : String → Option ℕ → Session (Option Order)
get_order_for_user public_id uid = do
  found ← read (λ db. select (λ o. o.public_id == public_id && is_theirs uid o) (rows db.orders))
  one_or_none found
