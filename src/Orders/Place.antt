-- ===== src/Orders/Place.antt =====
-- `place_order` of app/orders.py. Drawn and outside values are arguments: the random part of the
-- public id, and what the provider answered when the order was submitted.
use smmfalcron.Prelude.{
  List, ℕ, ◌+◌, ◌/◌, String, Bool, true, false, not, Option, none, some, [], ◌∷◌, ◌||◌, ◌==◌,
  string_eq, nat_eq, nat_eqb, select, truncate, append, if◌then◌else◌,
}
use smmfalcron.Prelude.Int.{ℤ, pos, ◌+ℤ◌, leb_ℤ, ltb_ℤ, max_ℤ}
use smmfalcron.Table.{lookup, put}
use smmfalcron.Models.{
  IdempotencyRecord, Db, Order, OrderStatus, Snapshot, Extra, Service, Coupon, ResellerOrder,
  Reseller, is_failed, is_active_panel, available_paise,
}
use smmfalcron.Env.{Env}
use smmfalcron.Security.{new_idempotency_key, new_public_id}
use smmfalcron.Session.{
  Session, order_error, insufficient_funds, no_such_row, ◌>>=◌, ◌>>◌, return, read, found_or, write,
  one_or_none, raise_if,
}
use smmfalcron.Catalog.{assert_orders_open, get_service, audit}
use smmfalcron.Referrals.{rows}
use smmfalcron.Pricing.Quotes.{PriceQuote, quote_order}
use smmfalcron.Wallet.{lock_user, reserve, capture}
use smmfalcron.Orders.Input.{validate_link, validate_extra}
use smmfalcron.Orders.Steps.{record_event, order_label, fail_and_release}

-- What came of `adapter_for` and `adapter.create_order`: the provider's order id, a `ProviderError`
-- with its text, or any other exception.
pub data ProviderAnswer : Type 0 where
  accepted : String → ProviderAnswer
  refused : (retryable : Bool) → String → ProviderAnswer
  crashed : ProviderAnswer

pub record Request : Type 0 where
  pub service_id : String
  pub link : String
  pub quantity : ℤ
  pub extra : Extra
  pub coupon_code : Option String
  pub idempotency_key : Option String

-- `scale_retail`
unfoldable pub scale_retail : PriceQuote → ℤ
scale_retail q = max_ℤ (q.charge_paise +ℤ q.reseller_discount_paise) q.charge_paise

-- `snapshot_service`; the fields that are only shown are not kept
unfoldable pub snapshot_service : Service → PriceQuote → Snapshot
snapshot_service svc q = record {
  service_id = svc.id;
  provider_service_id = svc.provider_service_id;
  rate_per_1000_paise = svc.rate_per_1000_paise;
  sell_per_1000_paise = q.sell_per_1000_paise;
  pricing_layer = q.layer;
  is_refillable = svc.is_refillable;
  is_cancelable = svc.is_cancelable;
  reseller_discount_paise = q.reseller_discount_paise;
  retail_per_1000_paise = q.retail_per_1000_paise;
}

abbrev pub order_by : Option ℕ → List Order → Session (Option Order)
order_by none by_key = one_or_none by_key
order_by (some oid) by_key =
    if nat_eqb oid 0 then one_or_none by_key else read (λ db. lookup oid db.orders)

-- The order that the key's record names, else the one that has the key itself.
abbrev pub order_of : Option IdempotencyRecord → List Order → Session (Option Order)
order_of none by_key = one_or_none by_key
order_of (some r) by_key = order_by r.order_id by_key

abbrev pub has_key : String → Order → Bool
has_key key o = o.idempotency_key == key

-- `_load_idempotent_order`
unfoldable pub load_idempotent_order : String → Session (Option Order)
load_idempotent_order key = do
  record_ ← read (λ db. lookup key db.idempotency)
  by_key ← read (λ db. select (has_key key) (rows db.orders))
  order_of record_ by_key

abbrev pub provider_active : Service → Db → Bool
provider_active svc db = elim (lookup svc.provider_id db.providers) [
  | none ↦ false
  | some p ↦ p.is_active
]

abbrev pub or_empty : Option String → String
or_empty none = ""
or_empty (some s) = s

abbrev pub is_none {ℓ} : {A : Type ℓ} → Option A → Bool
is_none none = true
is_none (some a) = false

-- The new order's row, `status="pending"`.
unfoldable pub new_order :
    ℕ → ℕ → String → ℕ → Request → String → Extra → Service → PriceQuote → String → Order
unfolding snapshot_service
new_order now id token uid req link extra svc quote key = record {
  id = id;
  public_id = new_public_id "FL" token;
  user_id = uid;
  service_id = svc.id;
  provider_id = svc.provider_id;
  provider_order_id = none;
  status = OrderStatus.pending;
  link = link;
  quantity = req.quantity;
  extra = extra;
  charge_paise = quote.charge_paise;
  cost_paise = quote.cost_paise;
  start_count = none;
  remains = some req.quantity;
  snapshot = snapshot_service svc quote;
  idempotency_key = key;
  coupon_code = quote.coupon_code;
  fail_reason = none;
  refill_count = 0;
  last_synced_at = none;
  created_at = now;
  updated_at = now;
}

-- The rows of the order and of its idempotency record.
abbrev pub insert_order : Order → String → Db → Db
insert_order order key db = record db {
  orders = put order.id order db.orders;
  next_order_id = db.next_order_id + 1;
  idempotency =
      put key (record { key = key; scope = "order"; order_id = some order.id; created_at = db.now })
        db.idempotency;
}

abbrev reseller_order : ℕ → Order → PriceQuote → ℕ → ResellerOrder
reseller_order uid order quote now = record {
  reseller_id = uid;
  order_id = order.id;
  charge_paise = quote.charge_paise;
  retail_paise = scale_retail quote;
  created_at = now;
}

abbrev pub add_link : Option Reseller → ℕ → Order → PriceQuote → Db → Db
add_link none uid order quote db = db
add_link (some r) uid order quote db =
    if is_active_panel r.status
    then record db { reseller_orders = reseller_order uid order quote db.now ∷ db.reseller_orders }
    else db

-- The link of the order to an active reseller's panel.
unfoldable pub link_reseller : ℕ → Order → PriceQuote → Session (Unit {0})
link_reseller uid order quote = write λ db. add_link (lookup uid db.resellers) uid order quote db

abbrev one_more : Coupon → Coupon
one_more c = record c { used_count = c.used_count + 1 }

abbrev add_use : String → ℕ → ℕ → Db → Db
add_use code uid order_id db = record db {
  coupons = elim (lookup code db.coupons) [
    | none ↦ db.coupons
    | some c ↦ put code (one_more c) db.coupons
  ];
  redemptions =
      record { coupon_code = code; user_id = uid; order_id = some order_id; created_at = db.now }
      ∷ db.redemptions;
}

-- `if quote.coupon_code:`
unfoldable pub use_coupon : ℕ → Order → Option String → Session (Unit {0})
use_coupon uid order none = return tt
use_coupon uid order (some code) =
    if code == "" then return tt else write (add_use code uid order.id)

module _ ⦃env : Env⦄ where
  -- What follows the provider's answer.
  unfoldable pub after_answer : ℕ → Order → ℤ → ProviderAnswer → Session Order
  after_answer uid order charge (refused true message) = do
    let waiting = record order { fail_reason = some "Waiting for provider confirmation" }
    held ← record_event waiting OrderStatus.review (some (truncate 255 message))
    audit "system" "order.review" (some order.public_id) (some "ambiguous provider response")
    return held
  after_answer uid order charge (refused false message) =
      fail_and_release uid order charge (truncate 255 message) "provider"
  after_answer uid order charge crashed =
      fail_and_release uid order charge "Internal error submitting to provider" "internal"
  after_answer uid order charge (accepted external_id) = do
    let placed = record order { provider_order_id = some external_id }
    capture uid charge (order_label (append "Charge " order.public_id) placed)
        (new_idempotency_key ("capture" ∷ order.public_id ∷ []))
    record_event placed OrderStatus.processing (some (append "Provider order " external_id))

  -- From the reservation of the funds to the outcome at the provider.
  unfoldable pub reserve_and_submit : ℕ → Order → PriceQuote → ProviderAnswer → Session Order
  reserve_and_submit uid order quote answer = do
    reserve uid quote.charge_paise (order_label (append "Reserve for " order.public_id) order)
        (new_idempotency_key ("reserve" ∷ order.public_id ∷ []))
    waiting ← record_event order OrderStatus.awaiting_provider (some "Funds reserved")
    use_coupon uid waiting quote.coupon_code
    after_answer uid waiting quote.charge_paise answer

  -- The key of a request: the client's, kept apart by user, or a hash of the order in this 45
  -- second bucket.
  unfoldable pub order_key : ℕ → ℕ → Request → String → Extra → Service → PriceQuote → String
  order_key now uid req link extra svc quote =
      if is_none req.idempotency_key || or_empty req.idempotency_key == ""
      then new_idempotency_key (
          "order"
          ∷ env.str_int (pos uid)
          ∷ svc.id
          ∷ link
          ∷ env.str_int req.quantity
          ∷ env.dumps_sorted extra
          ∷ or_empty quote.coupon_code
          ∷ env.str_int (pos (now / 45))
          ∷ [])
      else new_idempotency_key
          ("order-key" ∷ env.str_int (pos uid) ∷ truncate 128 (or_empty req.idempotency_key) ∷ [])

  -- The new order, once the request is known to be no repeat.
  unfoldable pub create_order :
      ℕ
      → Request
      → String
      → Extra
      → Service
      → PriceQuote
      → String
      → String
      → ProviderAnswer
      → Session Order
  create_order uid req link extra svc quote key token answer = do
    u ← lock_user uid
    raise_if (ltb_ℤ (available_paise u) quote.charge_paise) insufficient_funds
    order ← read (λ db. new_order db.now db.next_order_id token uid req link extra svc quote key)
    write (insert_order order key)
    link_reseller uid order quote
    reserve_and_submit uid order quote answer

  -- An earlier order under the key is returned, unless it failed: then the key is changed.
  unfoldable pub resume :
      ℕ
      → Request
      → String
      → Extra
      → Service
      → PriceQuote
      → String
      → String
      → ProviderAnswer
      → ℕ
      → Option Order
      → Session Order
  resume uid req link extra svc quote key token answer now none =
      create_order uid req link extra svc quote key token answer
  resume uid req link extra svc quote key token answer now (some earlier) =
      if is_failed earlier.status
      then create_order uid req link extra svc quote
          (new_idempotency_key (key ∷ "retry" ∷ env.isoformat now ∷ [])) token answer
      else return earlier

  unfoldable pub resume_or_create :
      ℕ
      → Request
      → String
      → Extra
      → Service
      → PriceQuote
      → String
      → String
      → ProviderAnswer
      → Session Order
  resume_or_create uid req link extra svc quote key token answer = do
    existing ← load_idempotent_order key
    now ← read (λ db. db.now)
    resume uid req link extra svc quote key token answer now existing

  -- From the checks of the input on, for a service that is on offer.
  unfoldable pub submit : ℕ → Request → Service → String → ProviderAnswer → Session Order
  submit uid req svc token answer = do
    link ← validate_link req.link
    extra ← validate_extra svc req.extra
    quote ← quote_order svc.id req.quantity (some uid) req.coupon_code
    raise_if (leb_ℤ quote.charge_paise (pos 0)) (order_error "Quoted charge is invalid")
    now ← read (λ db. db.now)
    lock_user uid
    resume_or_create uid req link extra svc quote (order_key now uid req link extra svc quote) token
        answer

  unfoldable pub place_order : ℕ → Request → String → ProviderAnswer → Session Order
  place_order uid req token answer = do
    row ← read (λ db. lookup uid db.users)
    u ← found_or no_such_row row
    raise_if u.is_banned (order_error "This account is suspended")
    raise_if (is_none u.terms_accepted_at)
        (order_error "Please accept the Terms of Service and Privacy Policy first")
    assert_orders_open
    offered ← read (get_service req.service_id)
    svc ← found_or (order_error "Service is not available") offered
    raise_if (not svc.is_active) (order_error "Service is not available")
    online ← read (provider_active svc)
    raise_if (not online) (order_error "Provider is offline")
    submit uid req svc token answer
