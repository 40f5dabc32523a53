-- ===== src/Payments/Settle.antt =====
-- app/payments/service.py: `settle_payment`, which credits the wallet for a verified payment, and the
-- operator's `manual_confirm`.
use smmfalcron.Prelude.{
  ℕ, String, Bool, false, not, Option, none, some, [], ◌∷◌, ◌&&◌, ◌==◌, string_eq, nat_eq, append,
  join_with, truncate, if◌then◌else◌,
}
use smmfalcron.Prelude.Int.{ℤ, eqb_ℤ}
use smmfalcron.Table.{lookup, adjust}
use smmfalcron.Models.{User, Payment, PaymentStatus, is_paid}
use smmfalcron.Env.{Env}
use smmfalcron.Security.{new_idempotency_key, key_or}
use smmfalcron.Session.{Session, ◌>>=◌, ◌>>◌, return, read, write}
use smmfalcron.Wallet.{Label, credit}
use smmfalcron.Catalog.{audit}
use smmfalcron.Referrals.{credit_deposit_commission}
use smmfalcron.Payments.Gateway.{SettleOutcome, Verdict}

-- The keyword arguments of `settle_payment`.
pub record Claim : Type 0 where
  pub payment_public_id : String
  pub gateway : String
  pub gateway_ref : Option String
  pub amount_paise : Option ℤ
  pub currency : Option String
  pub source : String
  pub actor : String

-- A text that is there and not empty, as Python tests it.
abbrev pub given : Option String → Option String
given none = none
given (some s) = if s == "" then none else some s

abbrev both_differ : Option String → Option String → Bool
both_differ none b = false
both_differ (some a) none = false
both_differ (some a) (some b) = not (a == b)

-- `payment.method != gateway and source != "manual"`
unfoldable pub other_gateway : Claim → Payment → Bool
other_gateway claim p = not (p.method == claim.gateway) && not (claim.source == "manual")

-- `payment.provider_ref and gateway_ref and payment.provider_ref != gateway_ref`
unfoldable pub other_ref : Claim → Payment → Bool
other_ref claim p = both_differ (given p.provider_ref) (given claim.gateway_ref)

abbrev pub is_amount : Option ℤ → ℤ → Bool
is_amount none expected = false
is_amount (some a) expected = eqb_ℤ a expected

-- Assignments to the fields of a payment that the session holds.
unfoldable pub change_payment : String → (ℕ → Payment → Payment) → Session (Unit {0})
change_payment public_id f =
    write (λ db. record db { payments = adjust public_id (f db.now) db.payments })

abbrev pub settled : Verdict → Payment → Option ℤ → SettleOutcome
settled verdict p amount = record {
  outcome = verdict;
  payment_public_id = some p.public_id;
  user_id = some p.user_id;
  amount_paise = amount;
}

abbrev pub nothing_found : Verdict → Option String → SettleOutcome
nothing_found verdict reference = record {
  outcome = verdict;
  payment_public_id = reference;
  user_id = none;
  amount_paise = none;
}

abbrev pub held_for : Option String → ℕ → Payment → Payment
held_for reason now p = record p { status = PaymentStatus.review; failure_reason = reason }

-- `if gateway_ref and not payment.provider_ref: payment.provider_ref = gateway_ref[:64]`
abbrev keep_ref : Option String → Option String → Option String
keep_ref old new = elim (given old) [
  | none ↦ elim (given new) [ none ↦ old | some g ↦ some (truncate 64 g) ]
  | some s ↦ old
]

abbrev pub now_paid : Option String → ℕ → Payment → Payment
now_paid reference now p = record p {
  status = PaymentStatus.paid;
  paid_at = some now;
  failure_reason = none;
  provider_ref = keep_ref p.provider_ref reference;
}

-- The entry's meta data are the gateway and the source; the source is kept.
abbrev pub deposit_label : Claim → Payment → Label
deposit_label claim p = record {
  reason = append "Deposit " p.public_id;
  reference_type = some "payment";
  reference_id = some p.public_id;
  created_by = none;
  meta_json = some claim.source;
}

module _ ⦃env : Env⦄ where
  -- `(currency or payment.currency or "").upper()`
  abbrev pub claimed_currency : Claim → Payment → String
  claimed_currency claim p = env.upper (key_or claim.currency p.currency)

  -- The amount is the invoice's, and so is the currency.
  unfoldable pub matches : Claim → Payment → Bool
  matches claim p =
      is_amount claim.amount_paise p.amount_paise
      && (claimed_currency claim p == env.upper p.currency)

  abbrev amount_text : Option ℤ → String
  amount_text none = "None"
  amount_text (some a) = env.str_int a

  abbrev pub mismatch_text : Claim → Payment → String
  mismatch_text claim p = truncate 255 (
      join_with "" (
        "mismatch: expected "
        ∷ env.str_int p.amount_paise
        ∷ " "
        ∷ p.currency
        ∷ ", got "
        ∷ amount_text claim.amount_paise
        ∷ " "
        ∷ claimed_currency claim p
        ∷ []))

  abbrev pub deposit_key : String → String
  deposit_key public_id = new_idempotency_key ("deposit" ∷ public_id ∷ [])

  unfoldable pub hold_mismatch : Claim → Payment → Session SettleOutcome
  hold_mismatch claim p = do
    change_payment p.public_id (held_for (some (mismatch_text claim p)))
    audit claim.actor "payment.mismatch" (some p.public_id) (some claim.source)
    return (settled Verdict.amount_mismatch p claim.amount_paise)

  unfoldable pub mark_credited : Claim → Payment → Session SettleOutcome
  mark_credited claim p = do
    change_payment p.public_id (now_paid claim.gateway_ref)
    audit claim.actor "payment.credited" (some p.public_id) none
    return (settled Verdict.credited p (some p.amount_paise))

  -- The credit, the status and the referrer's commission. The status is flushed with the audit row,
  -- after the commission has counted the paid payments in the database.
  unfoldable pub credit_payment : Claim → Payment → User → Session SettleOutcome
  credit_payment claim p u = do
    credit u.telegram_id p.amount_paise (deposit_label claim p) (some (deposit_key p.public_id))
    credit_deposit_commission u p
    mark_credited claim p

  unfoldable pub settle_owner : Claim → Payment → Option User → Session SettleOutcome
  settle_owner claim p none = do
    change_payment p.public_id (held_for (some "owner not found"))
    return (settled Verdict.unknown_payment p none)
  settle_owner claim p (some u) = credit_payment claim p u

  -- What is left once the payment is known not to be paid yet.
  unfoldable pub settle_open : Claim → Payment → Session SettleOutcome
  settle_open claim p =
      if not (matches claim p)
      then hold_mismatch claim p
      else do owner ← read (λ db. lookup p.user_id db.users); settle_owner claim p owner

  unfoldable pub settle_row : Claim → Option Payment → Session SettleOutcome
  settle_row claim none =
      return (nothing_found Verdict.unknown_payment (some claim.payment_public_id))
  settle_row claim (some p) =
      if other_gateway claim p
      then return (settled Verdict.gateway_mismatch p none)
      else if other_ref claim p
      then return (settled Verdict.ref_mismatch p none)
      else if is_paid p.status
      then return (settled Verdict.already_paid p (some p.amount_paise))
      else settle_open claim p

  unfoldable pub settle_payment : Claim → Session SettleOutcome
  settle_payment claim = do
    row ← read (λ db. lookup claim.payment_public_id db.payments)
    settle_row claim row

  -- What an operator confirms is the invoice itself.
  abbrev pub manual_claim : String → Payment → Claim
  manual_claim actor p = record {
    payment_public_id = p.public_id;
    gateway = p.method;
    gateway_ref = p.provider_ref;
    amount_paise = some p.amount_paise;
    currency = some p.currency;
    source = "manual";
    actor = actor;
  }

  unfoldable pub confirm_row : String → String → Option Payment → Session SettleOutcome
  confirm_row public_id actor none = return (nothing_found Verdict.unknown_payment (some public_id))
  confirm_row public_id actor (some p) = settle_payment (manual_claim actor p)

  unfoldable pub manual_confirm : String → String → Session SettleOutcome
  unfolding confirm_row
  manual_confirm public_id actor = do
    row ← read (λ db. lookup public_id db.payments)
    confirm_row public_id actor row
