-- ===== src/Payments/Once.antt =====
-- A gateway's event counts once (`handle_webhook_event` of app/payments/service.py).
use mathlib.Core.Path.{subst}
use smmfalcron.Prelude.{
  ℕ, ◌≡◌, refl, sym, inl, inr, String, true, Option, none, some, List, [], ◌∷◌, nat_eq, string_eq,
  ◌||◌, ==_refl, Bool-cases,
}
use smmfalcron.Models.{Db, Payment, PaymentEvent}
use smmfalcron.Env.{Env}
use smmfalcron.Session.{Outcome, returns, raises, session_scope, settle}
use smmfalcron.Session.Keeps.{Keeps, then-Keeps, bind-Keeps, return-Keeps}
use smmfalcron.Wallet.Pushes.{credit-any}
use smmfalcron.Catalog.{audit}
use smmfalcron.Payments.Gateway.{GatewayEvent, EventKind, SettleOutcome, Verdict}
use smmfalcron.Payments.Settle.{given, change_payment, nothing_found}
use smmfalcron.Payments.Steps.{settle_payment-Keeps, expire_pending-Keeps}
use smmfalcron.Payments.Webhook.{
  is_event, recorded, close_rows, add_event, close_event, event_claim, dispatch, handle_new,
  handle_webhook_event,
}

-- The event has its row.
abbrev Seen : String → String → Db → Type 0
Seen gateway event_id db = recorded gateway event_id db.payment_events ≡ true

recorded-close_rows :
    (gateway : String) (event : GatewayEvent) (verdict : Verdict) (rows : List PaymentEvent)
    → recorded gateway event.event_id rows ≡ true
    → recorded gateway event.event_id (close_rows gateway event verdict rows) ≡ true
unfolding recorded close_rows
recorded-close_rows gateway event verdict [] e = e
recorded-close_rows gateway event verdict (row ∷ older) e =
    elim (Bool-cases (is_event gateway event.event_id row)) [
      | inl same ↦ rw (same, same) refl
      | inr other ↦
          rw (other, other)
            (recorded-close_rows gateway event verdict older
              (subst (λ b. (b || recorded gateway event.event_id older) ≡ true) other e))
    ]

module _ ⦃env : Env⦄ (gateway event_id : String) where
  audit-Seen :
      (actor action : String) (target reason : Option String)
      → Keeps (Seen gateway event_id) (audit actor action target reason)
  unfolding audit
  audit-Seen actor action target reason = record { kept = λ db h. h }

  change_payment-Seen :
      (public_id : String) (f : ℕ → Payment → Payment)
      → Keeps (Seen gateway event_id) (change_payment public_id f)
  unfolding change_payment
  change_payment-Seen public_id f = record { kept = λ db h. h }

  dispatch-Seen :
      (channel : String) (event : GatewayEvent) (kind : EventKind) (reference : Option String)
      → Keeps (Seen gateway event_id) (dispatch channel event kind reference)
  unfolding dispatch
  dispatch-Seen channel event EventKind.paid (some reference) =
      settle_payment-Keeps change_payment-Seen (credit-any (λ _ _ _ _ _ h. h)) audit-Seen
        (event_claim channel event reference)
  dispatch-Seen channel event EventKind.paid none = return-Keeps
  dispatch-Seen channel event EventKind.expired (some reference) =
      bind-Keeps (expire_pending-Keeps change_payment-Seen reference) λ outcome. return-Keeps
  dispatch-Seen channel event EventKind.expired none = return-Keeps
  dispatch-Seen channel event EventKind.attention reference =
      then-Keeps (audit-Seen "system" "payment.attention" event.reference none) return-Keeps
  dispatch-Seen channel event EventKind.ignored reference = return-Keeps

module _ ⦃env : Env⦄ (gateway : String) where
  close_event-Seen :
      (event : GatewayEvent) (verdict : Verdict)
      → Keeps (Seen gateway event.event_id) (close_event gateway event verdict)
  unfolding close_event
  close_event-Seen event verdict = record {
    kept = λ db h. recorded-close_rows gateway event verdict db.payment_events h;
  }

  add_event-Seen :
      (event : GatewayEvent) (db : Db) → Seen gateway event.event_id (add_event gateway event db).1
  unfolding add_event recorded
  add_event-Seen event db = rw (==_refl gateway, ==_refl event.event_id) refl

  handle_new-Seen :
      (event : GatewayEvent) (db : Db) → Seen gateway event.event_id (handle_new gateway event db).1
  unfolding handle_new add_event
  handle_new-Seen event db =
      (bind-Keeps
          (dispatch-Seen gateway event.event_id gateway event event.kind (given event.reference))
          λ outcome.
            then-Keeps (close_event-Seen event outcome.outcome) (return-Keeps {a = outcome})).kept
        (add_event gateway event db).1 (add_event-Seen event db)

  handle_webhook_event-Seen :
      (event : GatewayEvent) (db : Db)
      → Seen gateway event.event_id (handle_webhook_event gateway event db).1
  unfolding handle_webhook_event
  handle_webhook_event-Seen event db =
      elim (Bool-cases (recorded gateway event.event_id db.payment_events)) [
        | inl seen ↦ rw seen seen
        | inr new ↦ rw new (handle_new-Seen event db)
      ]

  duplicate_lem :
      (event : GatewayEvent) (db : Db)
      → Seen gateway event.event_id db
      → handle_webhook_event gateway event db
        ≡ (returns (nothing_found Verdict.duplicate event.reference), db)
  unfolding handle_webhook_event
  duplicate_lem event db seen = rw seen refl

  -- What a delivery that was committed leaves is all that another delivery finds and leaves.
  abbrev Repeated : GatewayEvent → Outcome SettleOutcome × Db → Type 0
  Repeated event (returns outcome, db) =
      handle_webhook_event gateway event db
      ≡ (returns (nothing_found Verdict.duplicate event.reference), db)
  Repeated event (raises e, db) = Unit

  settle-Repeated :
      (event : GatewayEvent) (out : Outcome SettleOutcome) (db after : Db)
      → Seen gateway event.event_id after
      → Repeated event (out, settle out db after)
  settle-Repeated event (returns outcome) db after seen = duplicate_lem event after seen
  settle-Repeated event (raises e) db after seen = tt

  -- Once a gateway's event was handled and the session committed, a second delivery with the same
  -- event id, whatever else it says, is answered as a duplicate and writes nothing.
  pub redelivery_harmless :
      (event again : GatewayEvent) (db : Db) {outcome : SettleOutcome} {after : Db}
      → again.event_id ≡ event.event_id
      → session_scope (handle_webhook_event gateway event) db ≡ (returns outcome, after)
      → handle_webhook_event gateway again after
        ≡ (returns (nothing_found Verdict.duplicate again.reference), after)
  redelivery_harmless event again db same committed = subst (Repeated again) committed (
      settle-Repeated again (handle_webhook_event gateway event db).0 db
        (handle_webhook_event gateway event db).1
        (subst (λ id. Seen gateway id (handle_webhook_event gateway event db).1) (sym same)
          (handle_webhook_event-Seen event db)))
