-- ===== src/Payments/Gateway.antt =====
-- app/payments/base.py: what a gateway tells us, whichever gateway it is.
use smmfalcron.Prelude.{ℕ, String, Option}
use smmfalcron.Prelude.Int.{ℤ}

pub record Checkout : Type 0 where
  pub url : String
  pub gateway_ref : String

-- What `create_checkout` comes to: the gateway is not configured, it fails (`GatewayError`), or it
-- gives a checkout.
pub data CheckoutAnswer : Type 0 where
  not_configured unavailable : CheckoutAnswer
  opened : Checkout → CheckoutAnswer

-- `GatewayEvent.kind`
pub data EventKind : Type 0 where
  paid expired attention ignored : EventKind

-- The parsed body (`raw`) is kept for debugging only.
pub record GatewayEvent : Type 0 where
  pub event_id : String
  pub event_type : String
  pub kind : EventKind
  pub reference : Option String
  pub gateway_ref : Option String
  pub amount_paise : Option ℤ
  pub currency : Option String
  pub detail : String

-- `GatewayStatus.state`
pub data GatewayState : Type 0 where
  paid expired pending : GatewayState

pub record GatewayStatus : Type 0 where
  pub state : GatewayState
  pub amount_paise : Option ℤ
  pub currency : Option String

-- The words of `SettleOutcome.outcome` and `WebhookOutcome.outcome`.
pub data Verdict : Type 0 where
  credited already_paid amount_mismatch unknown_payment gateway_mismatch ref_mismatch : Verdict
  duplicate expired ignored manual_review : Verdict

abbrev pub verdict_text : Verdict → String
verdict_text Verdict.credited = "credited"
verdict_text Verdict.already_paid = "already_paid"
verdict_text Verdict.amount_mismatch = "amount_mismatch"
verdict_text Verdict.unknown_payment = "unknown_payment"
verdict_text Verdict.gateway_mismatch = "gateway_mismatch"
verdict_text Verdict.ref_mismatch = "ref_mismatch"
verdict_text Verdict.duplicate = "duplicate"
verdict_text Verdict.expired = "expired"
verdict_text Verdict.ignored = "ignored"
verdict_text Verdict.manual_review = "manual_review"

-- `SettleOutcome` and `WebhookOutcome`, which have the same fields.
pub record SettleOutcome : Type 0 where
  pub outcome : Verdict
  pub payment_public_id : Option String
  pub user_id : Option ℕ
  pub amount_paise : Option ℤ
