-- ===== src/Models/Orders.antt =====
-- app/models.py: orders, their status sets, coupons and idempotency records.
use smmfalcron.Prelude.{ℕ, String, Bool, true, false, Option, List}
use smmfalcron.Prelude.Int.{ℤ}
use smmfalcron.Models.Catalog.{Float}

-- The keys of `ORDER_STATUS_LABELS`; a panel may spell "canceled" in two ways.
pub data OrderStatus : Type 0 where
  pending awaiting_provider processing in_progress completed partial : OrderStatus
  canceled cancelled failed refunded refilling review : OrderStatus

-- `status in TERMINAL_STATUSES`
abbrev pub is_terminal : OrderStatus → Bool
is_terminal OrderStatus.completed = true
is_terminal OrderStatus.canceled = true
is_terminal OrderStatus.cancelled = true
is_terminal OrderStatus.failed = true
is_terminal OrderStatus.refunded = true
is_terminal _ = false

-- `status in ACTIVE_STATUSES`
abbrev pub is_active_status : OrderStatus → Bool
is_active_status OrderStatus.pending = true
is_active_status OrderStatus.awaiting_provider = true
is_active_status OrderStatus.processing = true
is_active_status OrderStatus.in_progress = true
is_active_status OrderStatus.partial = true
is_active_status OrderStatus.refilling = true
is_active_status _ = false

-- `status in REFILLABLE_STATUSES`
abbrev pub is_refillable_status : OrderStatus → Bool
is_refillable_status OrderStatus.completed = true
is_refillable_status OrderStatus.partial = true
is_refillable_status _ = false

-- `status in CANCELABLE_STATUSES`
abbrev pub is_cancelable_status : OrderStatus → Bool
is_cancelable_status OrderStatus.pending = true
is_cancelable_status OrderStatus.awaiting_provider = true
is_cancelable_status OrderStatus.processing = true
is_cancelable_status OrderStatus.in_progress = true
is_cancelable_status _ = false

-- `status in {"pending", "awaiting_provider"}`: the funds are reserved and not yet captured
abbrev pub is_held_status : OrderStatus → Bool
is_held_status OrderStatus.pending = true
is_held_status OrderStatus.awaiting_provider = true
is_held_status _ = false

-- `status == REVIEW_STATUS`
abbrev pub is_review : OrderStatus → Bool
is_review OrderStatus.review = true
is_review _ = false

abbrev pub is_failed : OrderStatus → Bool
is_failed OrderStatus.failed = true
is_failed _ = false

abbrev pub is_refunded : OrderStatus → Bool
is_refunded OrderStatus.refunded = true
is_refunded _ = false

abbrev pub is_completed : OrderStatus → Bool
is_completed OrderStatus.completed = true
is_completed _ = false

abbrev pub is_partial : OrderStatus → Bool
is_partial OrderStatus.partial = true
is_partial _ = false

-- `==` on two statuses, which are strings in the code
unfoldable pub status_code : OrderStatus → ℕ
status_code OrderStatus.pending = 0
status_code OrderStatus.awaiting_provider = 1
status_code OrderStatus.processing = 2
status_code OrderStatus.in_progress = 3
status_code OrderStatus.completed = 4
status_code OrderStatus.partial = 5
status_code OrderStatus.canceled = 6
status_code OrderStatus.cancelled = 7
status_code OrderStatus.failed = 8
status_code OrderStatus.refunded = 9
status_code OrderStatus.refilling = 10
status_code OrderStatus.review = 11

-- The `extra` dictionary of an order: the keys that the code reads or writes, and the rest as text.
pub record Extra : Type 0 where
  pub comments : Option String
  pub comment_count : Option ℕ
  pub mentions : Option String
  pub usernames : Option String
  pub last_refill_id : Option String
  pub others : List (String × String)

-- The name of the layer that set a price: "star", "service", …, and "…+reseller".
pub data Layer : Type 0 where
  star service category provider global_markup : Layer
  with_reseller : Layer → Layer

-- `"+reseller" in layer`
abbrev pub is_reseller_layer : Layer → Bool
is_reseller_layer (with_reseller l) = true
is_reseller_layer _ = false

-- What `service_snapshot_json` holds for later: it is written once, by `json.dumps`.
pub record Snapshot : Type 0 where
  pub service_id : String
  pub provider_service_id : String
  pub rate_per_1000_paise : ℤ
  pub sell_per_1000_paise : ℤ
  pub pricing_layer : Layer
  pub is_refillable : Bool
  pub is_cancelable : Bool
  pub reseller_discount_paise : ℤ
  pub retail_per_1000_paise : ℤ

pub record Order : Type 0 where
  pub id : ℕ
  pub public_id : String
  pub user_id : ℕ
  pub service_id : String
  pub provider_id : String
  pub provider_order_id : Option String
  pub status : OrderStatus
  pub link : String
  pub quantity : ℤ
  pub extra : Extra
  pub charge_paise : ℤ
  pub cost_paise : ℤ
  pub start_count : Option ℤ
  pub remains : Option ℤ
  pub snapshot : Snapshot
  pub idempotency_key : String
  pub coupon_code : Option String
  pub fail_reason : Option String
  pub refill_count : ℕ
  pub last_synced_at : Option ℕ
  pub created_at : ℕ
  pub updated_at : ℕ

pub record OrderEvent : Type 0 where
  pub order_id : ℕ
  pub from_status : OrderStatus
  pub to_status : OrderStatus
  pub note : Option String
  pub created_at : ℕ

-- `discount_type`: the code tests for "percent" and takes any other word as a fixed amount.
pub data DiscountType : Type 0 where
  percent fixed : DiscountType

pub record Coupon : Type 0 where
  pub code : String
  pub discount_type : DiscountType
  pub value : Float
  pub max_uses : Option ℕ
  pub used_count : ℕ
  pub per_user_limit : ℕ
  pub min_order_paise : ℤ
  pub is_active : Bool
  pub expires_at : Option ℕ

pub record CouponRedemption : Type 0 where
  pub coupon_code : String
  pub user_id : ℕ
  pub order_id : Option ℕ
  pub created_at : ℕ

-- `response_json` is read back only for its "order_id".
pub record IdempotencyRecord : Type 0 where
  pub key : String
  pub scope : String
  pub order_id : Option ℕ
  pub created_at : ℕ

pub record ResellerOrder : Type 0 where
  pub reseller_id : ℕ
  pub order_id : ℕ
  pub charge_paise : ℤ
  pub retail_paise : ℤ
  pub created_at : ℕ
