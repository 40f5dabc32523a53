-- ===== src/Payments/Kept.antt =====
-- What a property must withstand so that everything app/payments/service.py does keeps it: a
-- settlement, an expiry and a new invoice.
use smmfalcron.Prelude.{
  ℕ, refl, String, not, Option, none, some, List, [], ◌∷◌, nat_eq, string_eq, ◌==◌, select, take,
}
use smmfalcron.Prelude.Int.{ℤ}
use smmfalcron.Table.{lookup}
use smmfalcron.Models.{Db, User, Payment}
use smmfalcron.Env.{Env}
use smmfalcron.Security.{new_public_id}
use smmfalcron.Session.{deposit_error, permission_error}
use smmfalcron.Session.Keeps.{
  Keeps, then-Keeps, bind-Keeps, read-Keeps, return-Keeps, raise_if-Keeps, if-Keeps,
  one_or_none-Keeps, rethrow-Keeps,
}
use smmfalcron.Wallet.Stable.{Stable, write-Keeps}
use smmfalcron.Catalog.{closed, assert_payments_open}
use smmfalcron.Referrals.{rows}
use smmfalcron.Referrals.Kept.{audit-Keeps}
use smmfalcron.Payments.Gateway.{
  CheckoutAnswer, GatewayEvent, GatewayStatus, GatewayState, EventKind, Verdict,
}
use smmfalcron.Payments.Settle.{
  Claim, given, nothing_found, settle_payment, manual_claim, confirm_row, manual_confirm,
}
use smmfalcron.Payments.Deposits.{
  DepositSettings, never_accepted, as_deposit_error, is_invoice_of, own_invoice, reuse_or,
  out_of_range, invoice_key, range_text, find_or_open, open_invoice, create_deposit,
}
use smmfalcron.Payments.Webhook.{
  recorded, add_event, close_event, expire_pending, event_claim, dispatch, handle_new,
  handle_webhook_event, is_due, text_of, status_claim, prepend, apply_status, take_status,
  reconcile_all, reconcile_pending, worth_asking, ask_about, check_row, check_payment,
}

pub record Settling ⦃env : Env⦄ (I : Db → Type 0) : Type 0 where
  pub stable : Stable I
  pub settles : (claim : Claim) → Keeps I (settle_payment claim)
  pub expires : (reference : String) → Keeps I (expire_pending reference)
  pub opens :
      (settings : DepositSettings) (uid : ℕ) (amount : ℤ) (key public_id : String)
      (answer : CheckoutAnswer) (existing : Option Payment)
      → Keeps I (open_invoice settings uid amount key public_id answer existing)

module _ ⦃env : Env⦄ {I : Db → Type 0} (s : Settling I) where
  reuse_or-Keeps :
      (own existing : Option Payment) (settings : DepositSettings) (uid : ℕ) (amount : ℤ)
      (key public_id : String) (answer : CheckoutAnswer)
      → Keeps I (reuse_or own (open_invoice settings uid amount key public_id answer existing))
  reuse_or-Keeps none existing settings uid amount key public_id answer =
      s.opens settings uid amount key public_id answer existing
  reuse_or-Keeps (some p) existing settings uid amount key public_id answer = return-Keeps

  find_or_open-Keeps :
      (settings : DepositSettings) (uid : ℕ) (amount : ℤ) (key token : String)
      (answer : CheckoutAnswer)
      → Keeps I (find_or_open settings uid amount key token answer)
  unfolding find_or_open
  find_or_open-Keeps settings uid amount key token answer =
      bind-Keeps (read-Keeps {f = λ db. select (is_invoice_of key) (rows db.payments)}) λ found.
        bind-Keeps (one_or_none-Keeps found) λ existing.
          reuse_or-Keeps (own_invoice uid existing) existing settings uid amount key
            (new_public_id "PAY" token) answer

  assert_payments_open-Keeps : Keeps I assert_payments_open
  unfolding assert_payments_open
  assert_payments_open-Keeps =
      bind-Keeps (read-Keeps {f = closed "kill_payments"})
        λ paused. raise_if-Keeps paused (permission_error "Deposits are temporarily paused.")

  pub create_deposit-Keeps :
      (settings : DepositSettings) (u : User) (amount : ℤ) (key : Option String) (token : String)
      (answer : CheckoutAnswer)
      → Keeps I (create_deposit settings u amount key token answer)
  unfolding create_deposit
  create_deposit-Keeps settings u amount key token answer =
      then-Keeps (raise_if-Keeps u.is_banned (deposit_error "This account is suspended")) (
        then-Keeps
          (raise_if-Keeps (never_accepted u.terms_accepted_at)
            (deposit_error "Please accept the Terms of Service and Privacy Policy first"))
          (then-Keeps (rethrow-Keeps as_deposit_error assert_payments_open-Keeps) (
            then-Keeps
              (raise_if-Keeps (out_of_range settings amount) (deposit_error (range_text settings)))
              (bind-Keeps (read-Keeps {f = invoice_key u amount key})
                λ k. find_or_open-Keeps settings u.telegram_id amount k token answer))))

  confirm_row-Keeps :
      (public_id actor : String) (row : Option Payment) → Keeps I (confirm_row public_id actor row)
  unfolding confirm_row
  confirm_row-Keeps public_id actor none = return-Keeps
  confirm_row-Keeps public_id actor (some p) = s.settles (manual_claim actor p)

  pub manual_confirm-Keeps : (public_id actor : String) → Keeps I (manual_confirm public_id actor)
  unfolding manual_confirm
  manual_confirm-Keeps public_id actor =
      bind-Keeps (read-Keeps {f = λ db. lookup public_id db.payments})
        λ row. confirm_row-Keeps public_id actor row

  dispatch-Keeps :
      (gateway : String) (event : GatewayEvent) (kind : EventKind) (reference : Option String)
      → Keeps I (dispatch gateway event kind reference)
  unfolding dispatch
  dispatch-Keeps gateway event EventKind.paid (some reference) =
      s.settles (event_claim gateway event reference)
  dispatch-Keeps gateway event EventKind.paid none = return-Keeps
  dispatch-Keeps gateway event EventKind.expired (some reference) =
      bind-Keeps (s.expires reference) λ outcome. return-Keeps
  dispatch-Keeps gateway event EventKind.expired none = return-Keeps
  dispatch-Keeps gateway event EventKind.attention reference =
      then-Keeps (audit-Keeps s.stable "system" "payment.attention" event.reference none)
        return-Keeps
  dispatch-Keeps gateway event EventKind.ignored reference = return-Keeps

  handle_new-Keeps : (gateway : String) (event : GatewayEvent) → Keeps I (handle_new gateway event)
  unfolding handle_new add_event close_event
  handle_new-Keeps gateway event =
      then-Keeps (write-Keeps s.stable _ (λ _. refl) (λ _. refl) (λ _. refl)) (
        bind-Keeps (dispatch-Keeps gateway event event.kind (given event.reference)) λ outcome.
          then-Keeps (write-Keeps s.stable _ (λ _. refl) (λ _. refl) (λ _. refl))
            (return-Keeps {a = outcome}))

  pub handle_webhook_event-Keeps :
      (gateway : String) (event : GatewayEvent) → Keeps I (handle_webhook_event gateway event)
  unfolding handle_webhook_event
  handle_webhook_event-Keeps gateway event =
      bind-Keeps (read-Keeps {f = λ db. recorded gateway event.event_id db.payment_events}) λ seen.
        if-Keeps seen (return-Keeps {a = nothing_found Verdict.duplicate event.reference})
          (handle_new-Keeps gateway event)

  apply_status-Keeps :
      (gateway source : String) (p : Payment) (state : GatewayState) (status : GatewayStatus)
      → Keeps I (apply_status gateway source p state status)
  unfolding apply_status
  apply_status-Keeps gateway source p GatewayState.paid status =
      bind-Keeps (s.settles (status_claim gateway source p status)) λ outcome. return-Keeps
  apply_status-Keeps gateway source p GatewayState.expired status = s.expires p.public_id
  apply_status-Keeps gateway source p GatewayState.pending status = return-Keeps

  take_status-Keeps :
      (gateway source : String) (p : Payment) (answer : Option GatewayStatus)
      → Keeps I (take_status gateway source p answer)
  unfolding take_status
  take_status-Keeps gateway source p none = return-Keeps
  take_status-Keeps gateway source p (some status) =
      apply_status-Keeps gateway source p status.state status

  reconcile_all-Keeps :
      (gateway : String) (fetch_status : String → Option GatewayStatus) (ps : List Payment)
      → Keeps I (reconcile_all gateway fetch_status ps)
  unfolding reconcile_all
  reconcile_all-Keeps gateway fetch_status [] = return-Keeps
  reconcile_all-Keeps gateway fetch_status (p ∷ ps) =
      bind-Keeps (take_status-Keeps gateway "reconcile" p (fetch_status (text_of p.provider_ref)))
        λ outcome.
          bind-Keeps (reconcile_all-Keeps gateway fetch_status ps)
            λ outcomes. return-Keeps {a = prepend outcome outcomes}

  pub reconcile_pending-Keeps :
      (gateway : String) (fetch_status : String → Option GatewayStatus) (min_age max_age limit : ℕ)
      → Keeps I (reconcile_pending gateway fetch_status min_age max_age limit)
  unfolding reconcile_pending
  reconcile_pending-Keeps gateway fetch_status min_age max_age limit =
      bind-Keeps
        (read-Keeps
          {f = λ db.
            take limit (select (is_due gateway min_age max_age db.now) (rows db.payments))})
        λ due. reconcile_all-Keeps gateway fetch_status due

  ask_about-Keeps :
      (p : Payment) (gateway : Option (String × (String → Option GatewayStatus)))
      → Keeps I (ask_about p gateway)
  unfolding ask_about
  ask_about-Keeps p none = return-Keeps
  ask_about-Keeps p (some (name, fetch_status)) =
      take_status-Keeps name "user-check" p (fetch_status (text_of p.provider_ref))

  check_row-Keeps :
      (uid : ℕ) (gateway : Option (String × (String → Option GatewayStatus))) (row : Option Payment)
      → Keeps I (check_row uid gateway row)
  unfolding check_row
  check_row-Keeps uid gateway none = return-Keeps
  check_row-Keeps uid gateway (some p) =
      if-Keeps (not (p.user_id == uid)) (return-Keeps {a = none}) (
        then-Keeps (if-Keeps (worth_asking p) (ask_about-Keeps p gateway) (return-Keeps {a = none}))
          (read-Keeps {f = λ db. lookup p.public_id db.payments}))

  pub check_payment-Keeps :
      (public_id : String) (uid : ℕ) (gateway : Option (String × (String → Option GatewayStatus)))
      → Keeps I (check_payment public_id uid gateway)
  unfolding check_payment
  check_payment-Keeps public_id uid gateway =
      bind-Keeps (read-Keeps {f = λ db. lookup public_id db.payments})
        λ row. check_row-Keeps uid gateway row
