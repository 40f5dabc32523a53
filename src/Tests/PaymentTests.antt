-- ===== src/Tests/PaymentTests.antt =====
-- Witnesses for the properties of the payments, on the till of the fixtures.
use mathlib.Core.Path.{subst}
use smmfalcron.Prelude.{
  ℕ, ◌≡◌, ◌⊎◌, refl, inl, inr, String, true, false, none, some, some-inj, List, [], ◌∷◌, arith,
  nat_eq, string_eq, ◌==◌, ==_iff, Bool-cases, join_with, append, if◌then◌else◌, Bool,
}
use smmfalcron.Prelude.Int.{pos}
use smmfalcron.Table.{lookup}
use smmfalcron.Models.{Db, Payment, is_paid, PaymentStatus}
use smmfalcron.Env.{HasDigests}
use smmfalcron.Session.{returns, session_scope}
use smmfalcron.Security.{new_idempotency_key, key_or}
use smmfalcron.Wallet.{find_key}
use smmfalcron.Wallet.Invariant.{IsSound}
use smmfalcron.Wallet.Stable.{books-IsSound}
use smmfalcron.Payments.Gateway.{GatewayEvent, EventKind, GatewayState, Verdict, opened}
use smmfalcron.Payments.Settle.{
  other_gateway, other_ref, matches, Claim, deposit_key, settle_payment, nothing_found,
}
use smmfalcron.Payments.Deposits.{DepositSettings}
use smmfalcron.Payments.Webhook.{
  reviewed, recorded, add_event, close_event, dispatch, handle_new, handle_webhook_event,
}
use smmfalcron.Catalog.{audit}
use smmfalcron.Payments.Lifecycle.{Accounts, HasKey, IsLater-refl}
use smmfalcron.Payments.Guards.{Admits, settle_guarded, paid_once}
use smmfalcron.Payments.Once.{redelivery_harmless}
use smmfalcron.Payments.Completes.{Settled, settle_completes}
use smmfalcron.Payments.Reviewed.{review_is_credited}
use smmfalcron.Service.{Call, deposit, webhook, reconcile, confirm, serve}
use smmfalcron.Service.Kept.{serve-Accounts}
use smmfalcron.Tests.Fixtures.{
  test_env, alice, shop, shop-IsSound, first_deposit, paid_invoice, unpaid_invoice, till,
}

till-IsSound : IsSound till
till-IsSound = books-IsSound shop till refl refl shop-IsSound

abbrev is_blank : String → Bool
is_blank String.[] = true
is_blank (String.◌∷◌ c s) = false

blank : true ≡ false → ⊥
blank e = ground (arith, e)

digests : HasDigests test_env
digests = record { not_empty = λ s e. blank (subst (λ t. is_blank t ≡ false) e refl) }

first_key : HasKey (deposit_key "PAY-1") till
unfolding find_key new_idempotency_key join_with append
first_key = (first_deposit, refl)

-- What `Accounts` says of one row.
abbrev IsInOrder : String → Payment → Type 0
IsInOrder id p = (p.public_id ≡ id) × (is_paid p.status ≡ true → HasKey (deposit_key id) till)

IsInOrder-moved :
    (key id : String) (p q : Payment)
    → (key == id) ≡ true
    → IsInOrder key p
    → some p ≡ some q
    → IsInOrder id q
IsInOrder-moved key id p q same h e =
    subst (λ x. IsInOrder id x) (some-inj e) (subst (λ k. IsInOrder k p) ((==_iff key id).0 same) h)

till-IsInOrder : (id : String) (p : Payment) → lookup id till.payments ≡ some p → IsInOrder id p
unfolding lookup
till-IsInOrder id p e = elim (Bool-cases ("PAY-1" == id)) [
  | inl first ↦
      IsInOrder-moved "PAY-1" id paid_invoice p first (refl, λ _. first_key)
        (subst
          (λ b.
            (if b then some paid_invoice else if "PAY-2" == id then some unpaid_invoice else none)
            ≡ some p)
          first e)
  | inr other ↦ elim (Bool-cases ("PAY-2" == id)) [
    | inl second ↦
        IsInOrder-moved "PAY-2" id unpaid_invoice p second (refl, λ paid. ground (arith, paid))
          (subst (λ b. (if b then some unpaid_invoice else none) ≡ some p) second
            (subst
              (λ b.
                (if b
                  then some paid_invoice
                  else if "PAY-2" == id
                  then some unpaid_invoice
                  else none)
                ≡ some p)
              other e))
    | inr neither ↦ ground (arith, e, other, neither)
  ]
]

till-Accounts : Accounts till till
till-Accounts = record {
  filed = λ id p at. (till-IsInOrder id p at).0;
  follows = λ id p at. (p, at, IsLater-refl p);
  backed = λ id p at. (till-IsInOrder id p at).1;
}

abbrev paid_event : GatewayEvent
paid_event = record {
  event_id = "evt_1";
  event_type = "payment_link.paid";
  kind = EventKind.paid;
  reference = some "PAY-2";
  gateway_ref = some "plink_b";
  amount_paise = some (pos 20_000);
  currency = some "INR";
  detail = "";
}

abbrev pub limits : DepositSettings
limits = record {
  payment_gateway = "razorpay";
  min_deposit_paise = pos 10_000;
  max_deposit_paise = pos 5_000_000;
  currency_code = "INR";
}

-- A deposit is opened, the second invoice is paid twice over, and the gateway says of all open
-- invoices that they have expired.
abbrev evening : List (ℕ × Call)
evening =
    (
      200,
      deposit limits 1 (pos 30_000) (some "d1") "ZZ11"
          (opened (record { url = "https://rzp.io/c"; gateway_ref = "plink_c" })),
    )
    ∷ (210, webhook "razorpay" paid_event)
    ∷ (220, webhook "razorpay" paid_event)
    ∷ (
      900,
      reconcile "razorpay"
          (λ reference.
            some (record { state = GatewayState.expired; amount_paise = none; currency = none }))
          120 72 50,
    )
    ∷ (950, confirm "PAY-1" "owner")
    ∷ []

serve-Accounts_example : Accounts till (serve evening till)
serve-Accounts_example = serve-Accounts digests evening till till-Accounts

abbrev claim : String → Claim
claim public_id = record {
  payment_public_id = public_id;
  gateway = "razorpay";
  gateway_ref = none;
  amount_paise = some (pos 20_000);
  currency = none;
  source = "reconcile";
  actor = "system";
}

first_listed : lookup "PAY-1" till.payments ≡ some paid_invoice
unfolding lookup
first_listed = refl

second_listed : lookup "PAY-2" till.payments ≡ some unpaid_invoice
unfolding lookup
second_listed = refl

paid_once_example : (settle_payment (claim "PAY-1") (serve evening till)).1 ≡ serve evening till
paid_once_example =
    paid_once digests evening till (claim "PAY-1") paid_invoice till-Accounts first_listed refl

settle_guarded_example :
    ((settle_payment (claim "PAY-2") till).1.ledger ≡ till.ledger)
    ⊎ ((p : Payment) × Admits (claim "PAY-2") till p)
settle_guarded_example = settle_guarded (claim "PAY-2") till

new_deposit : find_key (deposit_key "PAY-2") till.ledger ≡ none
unfolding find_key new_idempotency_key join_with append
new_deposit = refl

alice_listed : lookup 1 till.users ≡ some alice
unfolding lookup
alice_listed = refl

settle_completes_example : Settled unpaid_invoice alice (settle_payment (claim "PAY-2") till)
unfolding other_gateway other_ref matches key_or
settle_completes_example =
    settle_completes (claim "PAY-2") unpaid_invoice alice till till-IsSound alice_listed
      second_listed (omega arith) digests new_deposit refl refl refl refl refl

-- The same with one paisa.
abbrev short_claim : Claim
short_claim = record (claim "PAY-2") { amount_paise = some (pos 1) }

review_is_credited_example :
    ((q : Payment) × (lookup "PAY-2" (settle_payment short_claim till).1.payments ≡ some q)
      × (q.status ≡ PaymentStatus.review))
    × Settled unpaid_invoice alice
        (settle_payment (claim "PAY-2") (settle_payment short_claim till).1)
unfolding other_gateway other_ref matches key_or
review_is_credited_example =
    review_is_credited short_claim (claim "PAY-2") unpaid_invoice alice till till-IsSound
      alice_listed second_listed (omega arith) digests new_deposit refl refl refl refl refl refl
      refl refl refl

abbrev refund_event : GatewayEvent
refund_event = record paid_event {
  event_id = "evt_2";
  kind = EventKind.attention;
  detail = "refund";
}

abbrev reviewed_db : Db
reviewed_db = (session_scope (handle_webhook_event "razorpay" refund_event) till).1

committed :
    session_scope (handle_webhook_event "razorpay" refund_event) till
    ≡ (returns (reviewed refund_event), reviewed_db)
unfolding handle_webhook_event handle_new add_event close_event dispatch audit recorded
committed = refl

redelivery_harmless_example :
    handle_webhook_event "razorpay" (record paid_event { event_id = "evt_2" }) reviewed_db
    ≡ (returns (nothing_found Verdict.duplicate (some "PAY-2")), reviewed_db)
redelivery_harmless_example =
    redelivery_harmless "razorpay" refund_event (record paid_event { event_id = "evt_2" }) till refl
      committed
