-- ===== src/Payments/Deposits.antt =====
-- app/payments/service.py: `create_deposit`, which opens an invoice.
use smmfalcron.Prelude.{
  ℕ, String, Bool, true, false, Option, none, some, [], ◌∷◌, ◌||◌, ◌==◌, ◌/◌, string_eq, nat_eq,
  select, join_with, truncate, if◌then◌else◌,
}
use smmfalcron.Prelude.Int.{ℤ, pos, ltb_ℤ}
use smmfalcron.Table.{lookup, put, erase}
use smmfalcron.Models.{Db, User, Payment, PaymentStatus}
use smmfalcron.Env.{Env}
use smmfalcron.Security.{new_idempotency_key, new_public_id}
use smmfalcron.Session.{
  Session, Error, permission_error, deposit_error, integrity_error, ◌>>=◌, ◌>>◌, return, throw,
  read, write, raise_if, one_or_none, rethrow,
}
use smmfalcron.Catalog.{assert_payments_open}
use smmfalcron.Referrals.{rows}
use smmfalcron.Payments.Gateway.{Checkout, CheckoutAnswer, not_configured, unavailable, opened}
use smmfalcron.Payments.Settle.{given, change_payment}

-- The settings of app/config.py that a deposit reads.
pub record DepositSettings : Type 0 where
  pub payment_gateway : String
  pub min_deposit_paise : ℤ
  pub max_deposit_paise : ℤ
  pub currency_code : String

-- `except PermissionError as exc: raise DepositError(str(exc))`
abbrev pub as_deposit_error : Error → Error
as_deposit_error (permission_error message) = deposit_error message
as_deposit_error e = e

abbrev pub never_accepted : Option ℕ → Bool
never_accepted none = true
never_accepted (some t) = false

abbrev pub is_invoice_of : String → Payment → Bool
is_invoice_of key p = p.idempotency_key == key

abbrev pub new_payment : ℕ → DepositSettings → ℕ → ℤ → String → String → Payment
new_payment now settings uid amount key public_id = record {
  public_id = public_id;
  user_id = uid;
  amount_paise = amount;
  method = settings.payment_gateway;
  status = PaymentStatus.pending;
  provider_ref = none;
  currency = settings.currency_code;
  checkout_url = none;
  failure_reason = none;
  idempotency_key = key;
  paid_at = none;
  created_at = now;
}

abbrev pub was_found : Option Payment → Bool
was_found none = false
was_found (some p) = true

-- The unique columns of the table: the public id, and the key, which another user's row may have.
abbrev pub is_taken : String → Option Payment → Db → Bool
is_taken public_id (some other) db = true
is_taken public_id none db = was_found (lookup public_id db.payments)

abbrev pub open_checkout : Checkout → ℕ → Payment → Payment
open_checkout checkout now p = record p {
  provider_ref = some checkout.gateway_ref;
  checkout_url = some checkout.url;
}

abbrev pub add_invoice : DepositSettings → ℕ → ℤ → String → String → Db → Db
add_invoice settings uid amount key public_id db = record db {
  payments = put public_id (new_payment db.now settings uid amount key public_id) db.payments;
}

abbrev pub drop_invoice : String → Db → Db
drop_invoice public_id db = record db { payments = erase public_id db.payments }

unfoldable pub add_payment :
    DepositSettings → ℕ → ℤ → String → String → Option Payment → Session (Unit {0})
add_payment settings uid amount key public_id existing = do
  taken ← read (is_taken public_id existing)
  raise_if taken integrity_error
  write (add_invoice settings uid amount key public_id)

-- The checkout of a new invoice, which is deleted again where the gateway fails.
unfoldable pub ask_checkout : String → CheckoutAnswer → Session (Unit {0})
ask_checkout public_id not_configured = throw (deposit_error "Online payments are not configured")
ask_checkout public_id unavailable = do
  write (drop_invoice public_id)
  throw (deposit_error "The payment provider is unavailable. Please try again shortly.")
ask_checkout public_id (opened checkout) = change_payment public_id (open_checkout checkout)

-- `if method == "razorpay": …; return payment`
unfoldable pub finish_invoice : DepositSettings → String → CheckoutAnswer → Session String
finish_invoice settings public_id answer = do
  (if settings.payment_gateway == "razorpay" then ask_checkout public_id answer else return tt)
  return public_id

unfoldable pub open_invoice :
    DepositSettings → ℕ → ℤ → String → String → CheckoutAnswer → Option Payment → Session String
open_invoice settings uid amount key public_id answer existing = do
  add_payment settings uid amount key public_id existing
  finish_invoice settings public_id answer

-- `existing is not None and existing.user_id == user.telegram_id`
abbrev pub own_invoice : ℕ → Option Payment → Option Payment
own_invoice uid none = none
own_invoice uid (some p) = if p.user_id == uid then some p else none

abbrev pub reuse_or : Option Payment → Session String → Session String
reuse_or none rest = rest
reuse_or (some p) rest = return p.public_id

unfoldable pub out_of_range : DepositSettings → ℤ → Bool
out_of_range settings amount =
    ltb_ℤ amount settings.min_deposit_paise || ltb_ℤ settings.max_deposit_paise amount

module _ ⦃env : Env⦄ where
  abbrev keyed : ℕ → User → ℤ → Option String → String
  keyed now u amount none = new_idempotency_key (
      "pay"
      ∷ env.str_int (pos u.telegram_id)
      ∷ env.str_int amount
      ∷ env.str_int (pos (now / 45))
      ∷ [])
  keyed now u amount (some k) =
      new_idempotency_key ("pay-key" ∷ env.str_int (pos u.telegram_id) ∷ truncate 128 k ∷ [])

  -- The key of the invoice: the given one, or one for the amount within 45 seconds.
  abbrev pub invoice_key : User → ℤ → Option String → Db → String
  invoice_key u amount idempotency_key db = keyed db.now u amount (given idempotency_key)

  abbrev pub range_text : DepositSettings → String
  range_text settings = join_with "" (
      "Deposit must be between ₹"
      ∷ env.grouped_rupees settings.min_deposit_paise
      ∷ " and ₹"
      ∷ env.grouped_rupees settings.max_deposit_paise
      ∷ [])

  -- The invoice with the key, or a new one; `token` is the random part of its public id. The
  -- invoice comes back by its id.
  unfoldable pub find_or_open :
      DepositSettings → ℕ → ℤ → String → String → CheckoutAnswer → Session String
  find_or_open settings uid amount key token answer = do
    found ← read (λ db. select (is_invoice_of key) (rows db.payments))
    existing ← one_or_none found
    reuse_or (own_invoice uid existing)
        (open_invoice settings uid amount key (new_public_id "PAY" token) answer existing)

  unfoldable pub create_deposit :
      DepositSettings → User → ℤ → Option String → String → CheckoutAnswer → Session String
  unfolding open_invoice add_payment ask_checkout
  create_deposit settings u amount idempotency_key token answer = do
    raise_if u.is_banned (deposit_error "This account is suspended")
    raise_if (never_accepted u.terms_accepted_at)
        (deposit_error "Please accept the Terms of Service and Privacy Policy first")
    rethrow as_deposit_error assert_payments_open
    raise_if (out_of_range settings amount) (deposit_error (range_text settings))
    key ← read (invoice_key u amount idempotency_key)
    find_or_open settings u.telegram_id amount key token answer
