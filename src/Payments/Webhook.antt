-- ===== src/Payments/Webhook.antt =====
-- app/payments/service.py: gateway events handled once each, and the gateway asked about invoices
-- that are still open.
use smmfalcron.Prelude.{
  ℕ, String, Bool, true, false, not, Option, none, some, List, [], ◌∷◌, ◌&&◌, ◌||◌, ◌==◌, ◌+◌, ◌*◌,
  string_eq, nat_eq, leb, select, take, truncate, if◌then◌else◌,
}
use smmfalcron.Table.{lookup}
use smmfalcron.Models.{Payment, PaymentStatus, PaymentEvent, is_paid, is_pending, is_expired}
use smmfalcron.Env.{Env}
use smmfalcron.Session.{Session, ◌>>=◌, ◌>>◌, return, read, write}
use smmfalcron.Catalog.{audit}
use smmfalcron.Referrals.{rows}
use smmfalcron.Payments.Gateway.{
  GatewayEvent, GatewayStatus, GatewayState, EventKind, SettleOutcome, Verdict, verdict_text,
}
use smmfalcron.Payments.Settle.{
  Claim, given, change_payment, settled, nothing_found, settle_payment,
}

-- The row of (gateway, event_id), which is unique.
abbrev pub is_event : String → String → PaymentEvent → Bool
is_event gateway event_id row = row.gateway == gateway && row.event_id == event_id

unfoldable pub recorded : String → String → List PaymentEvent → Bool
recorded gateway event_id [] = false
recorded gateway event_id (row ∷ older) =
    is_event gateway event_id row || recorded gateway event_id older

abbrev pub new_event : ℕ → String → GatewayEvent → PaymentEvent
new_event now gateway event = record {
  gateway = gateway;
  event_id = event.event_id;
  event_type = event.event_type;
  payment_public_id = event.reference;
  amount_paise = event.amount_paise;
  currency = event.currency;
  outcome = "processing";
  detail = none;
  created_at = now;
}

unfoldable pub add_event : String → GatewayEvent → Session (Unit {0})
add_event gateway event =
    write λ db. record db { payment_events = new_event db.now gateway event ∷ db.payment_events }

-- `row.outcome = …; row.detail = …`
abbrev pub closed_row : Verdict → GatewayEvent → PaymentEvent → PaymentEvent
closed_row verdict event row = record row {
  outcome = truncate 32 (verdict_text verdict);
  detail = if event.detail == "" then none else some (truncate 255 event.detail);
}

unfoldable pub close_rows : String → GatewayEvent → Verdict → List PaymentEvent → List PaymentEvent
close_rows gateway event verdict [] = []
close_rows gateway event verdict (row ∷ older) =
    let rest = close_rows gateway event verdict older in
    if is_event gateway event.event_id row then closed_row verdict event row ∷ rest else row ∷ rest

unfoldable pub close_event : String → GatewayEvent → Verdict → Session (Unit {0})
close_event gateway event verdict =
    write λ db. record db { payment_events = close_rows gateway event verdict db.payment_events }

abbrev pub now_expired : ℕ → Payment → Payment
now_expired now p = record p { status = PaymentStatus.expired }

-- `if payment.status == PENDING: payment.status = EXPIRED`
unfoldable pub expire_row : Option Payment → Session (Option SettleOutcome)
expire_row none = return none
expire_row (some p) =
    if is_pending p.status
    then (do change_payment p.public_id now_expired; return (some (settled Verdict.expired p none)))
    else return none

unfoldable pub expire_pending : String → Session (Option SettleOutcome)
unfolding expire_row
expire_pending reference = do row ← read (λ db. lookup reference db.payments); expire_row row

abbrev pub or_ignored : Option String → Option SettleOutcome → SettleOutcome
or_ignored reference none = nothing_found Verdict.ignored reference
or_ignored reference (some outcome) = outcome

abbrev pub event_claim : String → GatewayEvent → String → Claim
event_claim gateway event reference = record {
  payment_public_id = reference;
  gateway = gateway;
  gateway_ref = event.gateway_ref;
  amount_paise = event.amount_paise;
  currency = event.currency;
  source = "webhook";
  actor = "system";
}

abbrev pub reviewed : GatewayEvent → SettleOutcome
reviewed event = record {
  outcome = Verdict.manual_review;
  payment_public_id = event.reference;
  user_id = none;
  amount_paise = event.amount_paise;
}

module _ ⦃env : Env⦄ where
  -- What an event asks for, by its kind and its reference.
  unfoldable pub dispatch :
      String → GatewayEvent → EventKind → Option String → Session SettleOutcome
  dispatch gateway event EventKind.paid (some reference) =
      settle_payment (event_claim gateway event reference)
  dispatch gateway event EventKind.paid none =
      return (nothing_found Verdict.ignored event.reference)
  dispatch gateway event EventKind.expired (some reference) = do
    outcome ← expire_pending reference
    return (or_ignored event.reference outcome)
  dispatch gateway event EventKind.expired none =
      return (nothing_found Verdict.ignored event.reference)
  dispatch gateway event EventKind.attention reference = do
    audit "system" "payment.attention" event.reference none
    return (reviewed event)
  dispatch gateway event EventKind.ignored reference =
      return (nothing_found Verdict.ignored event.reference)

  unfoldable pub handle_new : String → GatewayEvent → Session SettleOutcome
  handle_new gateway event = do
    add_event gateway event
    outcome ← dispatch gateway event event.kind (given event.reference)
    close_event gateway event outcome.outcome
    return outcome

  unfoldable pub handle_webhook_event : String → GatewayEvent → Session SettleOutcome
  handle_webhook_event gateway event = do
    seen ← read (λ db. recorded gateway event.event_id db.payment_events)
    (if seen
        then return (nothing_found Verdict.duplicate event.reference)
        else handle_new gateway event)

abbrev pub is_open_status : PaymentStatus → Bool
is_open_status s = is_pending s || is_expired s

abbrev pub is_there {ℓ} : {A : Type ℓ} → Option A → Bool
is_there none = false
is_there (some a) = true

-- The rows that `reconcile_pending` asks about.
abbrev pub is_due : String → ℕ → ℕ → ℕ → Payment → Bool
is_due gateway min_age_seconds max_age_hours now p =
    p.method == gateway
    && (is_open_status p.status
        && (is_there p.provider_ref
            && (leb (p.created_at + min_age_seconds) now
                && leb now (p.created_at + max_age_hours * 3_600))))

-- `payment.provider_ref or ""`
abbrev pub text_of : Option String → String
text_of none = ""
text_of (some s) = s

abbrev pub status_claim : String → String → Payment → GatewayStatus → Claim
status_claim gateway source p status = record {
  payment_public_id = p.public_id;
  gateway = gateway;
  gateway_ref = p.provider_ref;
  amount_paise = status.amount_paise;
  currency = status.currency;
  source = source;
  actor = "system";
}

abbrev pub prepend {ℓ} : {A : Type ℓ} → Option A → List A → List A
prepend none rest = rest
prepend (some a) rest = a ∷ rest

module _ ⦃env : Env⦄ where
  -- What the gateway's status of a payment leads to.
  unfoldable pub apply_status :
      String → String → Payment → GatewayState → GatewayStatus → Session (Option SettleOutcome)
  apply_status gateway source p GatewayState.paid status = do
    outcome ← settle_payment (status_claim gateway source p status)
    return (some outcome)
  apply_status gateway source p GatewayState.expired status = expire_pending p.public_id
  apply_status gateway source p GatewayState.pending status = return none

  -- The answer is none where `fetch_status` raised `GatewayError`.
  unfoldable pub take_status :
      String → String → Payment → Option GatewayStatus → Session (Option SettleOutcome)
  take_status gateway source p none = return none
  take_status gateway source p (some status) = apply_status gateway source p status.state status

  unfoldable pub reconcile_all :
      String → (String → Option GatewayStatus) → List Payment → Session (List SettleOutcome)
  reconcile_all gateway fetch_status [] = return []
  reconcile_all gateway fetch_status (p ∷ ps) = do
    outcome ← take_status gateway "reconcile" p (fetch_status (text_of p.provider_ref))
    outcomes ← reconcile_all gateway fetch_status ps
    return (prepend outcome outcomes)

  unfoldable pub reconcile_pending :
      String → (String → Option GatewayStatus) → ℕ → ℕ → ℕ → Session (List SettleOutcome)
  unfolding reconcile_all
  reconcile_pending gateway fetch_status min_age_seconds max_age_hours limit = do
    due ← read λ db.
        take limit (select (is_due gateway min_age_seconds max_age_hours db.now) (rows db.payments))
    reconcile_all gateway fetch_status due

  -- `payment.status != PAID and payment.method == "razorpay" and payment.provider_ref`
  unfoldable pub worth_asking : Payment → Bool
  worth_asking p = elim (is_paid p.status) [
    | true ↦ false
    | false ↦ p.method == "razorpay" && is_there (given p.provider_ref)
  ]

  -- The gateway that `check_payment` finds, by its name and what it answers.
  unfoldable pub ask_about :
      Payment → Option (String × (String → Option GatewayStatus)) → Session (Option SettleOutcome)
  ask_about p none = return none
  ask_about p (some (name, fetch_status)) =
      take_status name "user-check" p (fetch_status (text_of p.provider_ref))

  unfoldable pub check_row :
      ℕ
      → Option (String × (String → Option GatewayStatus))
      → Option Payment
      → Session (Option Payment)
  check_row uid gateway none = return none
  check_row uid gateway (some p) = if not (p.user_id == uid) then return none else do
    (if worth_asking p then ask_about p gateway else return none)
    read (λ db. lookup p.public_id db.payments)

  -- The payment as it is in the end, or none where it is not the user's.
  unfoldable pub check_payment :
      String → ℕ → Option (String × (String → Option GatewayStatus)) → Session (Option Payment)
  unfolding check_row
  check_payment public_id uid gateway = do
    row ← read (λ db. lookup public_id db.payments)
    check_row uid gateway row
