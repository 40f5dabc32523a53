-- ===== src/Models/Payments.antt =====
-- app/models.py: payments, gateway events and the audit trail.
use smmfalcron.Prelude.{ℕ, String, Bool, true, false, Option}
use smmfalcron.Prelude.Int.{ℤ}

-- `PENDING, PAID, EXPIRED, FAILED, REVIEW` of payments/service.py
pub data PaymentStatus : Type 0 where
  pending paid expired failed review : PaymentStatus

abbrev pub is_paid : PaymentStatus → Bool
is_paid PaymentStatus.paid = true
is_paid _ = false

abbrev pub is_pending : PaymentStatus → Bool
is_pending PaymentStatus.pending = true
is_pending _ = false

abbrev pub is_expired : PaymentStatus → Bool
is_expired PaymentStatus.expired = true
is_expired _ = false

pub record Payment : Type 0 where
  pub public_id : String
  pub user_id : ℕ
  pub amount_paise : ℤ
  pub method : String
  pub status : PaymentStatus
  pub provider_ref : Option String
  pub currency : String
  pub checkout_url : Option String
  pub failure_reason : Option String
  pub idempotency_key : String
  pub paid_at : Option ℕ
  pub created_at : ℕ

pub record PaymentEvent : Type 0 where
  pub gateway : String
  pub event_id : String
  pub event_type : String
  pub payment_public_id : Option String
  pub amount_paise : Option ℤ
  pub currency : Option String
  pub outcome : String
  pub detail : Option String
  pub created_at : ℕ

pub record AuditLog : Type 0 where
  pub actor : String
  pub action : String
  pub target : Option String
  pub reason : Option String
  pub created_at : ℕ
