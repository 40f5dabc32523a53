-- ===== src/Payments/Final.antt =====
-- A settlement, an expiry and a new invoice of app/payments/service.py keep the accounts of the
-- payments.
use mathlib.Core.Path.{subst}
use smmfalcron.Prelude.{
  ℕ, ◌≡◌, refl, sym, ap, ◌∙◌, inl, inr, String, true, false, Option, none, some, some-inj, arith,
  nat_eq, string_eq, ◌==◌, ==_iff, ==_refl, Bool-cases, Option-cases, if◌then◌else◌,
}
use smmfalcron.Prelude.Int.{ℤ}
use smmfalcron.Table.{lookup, put, lookup-put, lookup-erase}
use smmfalcron.Models.{Db, User, LedgerEntry, Payment, PaymentStatus, is_paid, is_pending}
use smmfalcron.Env.{Env, HasDigests}
use smmfalcron.Security.{new_idempotency_key}
use smmfalcron.Session.{return}
use smmfalcron.Session.Keeps.{Keeps, bind-Passes, then-Keeps, return-Keeps}
use smmfalcron.Wallet.{find_key}
use smmfalcron.Wallet.Stable.{Stable}
use smmfalcron.Wallet.Pushes.{Pushes, Pushes-Stable, credit-any, credit-then}
use smmfalcron.Referrals.{credit_deposit_commission}
use smmfalcron.Referrals.Kept.{audit-Keeps, credit_deposit_commission-Keeps}
use smmfalcron.Payments.Gateway.{CheckoutAnswer, not_configured, unavailable, opened, Verdict}
use smmfalcron.Payments.Settle.{
  Claim, other_gateway, other_ref, matches, change_payment, mismatch_text, held_for, now_paid,
  deposit_label, deposit_key, hold_mismatch, mark_credited, credit_payment, settle_owner,
  settle_open, settle_row, settle_payment, settled,
}
use smmfalcron.Payments.Deposits.{
  DepositSettings, was_found, is_taken, open_checkout, add_invoice, drop_invoice, new_payment,
  add_payment, ask_checkout, finish_invoice, open_invoice,
}
use smmfalcron.Payments.Webhook.{now_expired, expire_row, expire_pending}
use smmfalcron.Payments.Kept.{Settling}
use smmfalcron.Payments.Lifecycle.{
  IsLater, HasKey, HasKey-push, Accounts, Accounts-Pushes, HasKey-new, change_payment-Accounts,
}

true-ne-false : true ≡ false → ⊥
true-ne-false e = ground (arith, e)

none-not-some : {p : Payment} → none ≡ some p → ⊥
none-not-some e = ground (arith, e)

pending-unpaid : (status : PaymentStatus) → is_pending status ≡ true → is_paid status ≡ false
pending-unpaid PaymentStatus.pending e = refl
pending-unpaid PaymentStatus.paid e = sym e
pending-unpaid PaymentStatus.expired e = refl
pending-unpaid PaymentStatus.failed e = refl
pending-unpaid PaymentStatus.review e = refl

-- A payment that is not paid may be marked in any way.
open_IsLater :
    (p q : Payment)
    → is_paid p.status ≡ false
    → q.public_id ≡ p.public_id
    → q.user_id ≡ p.user_id
    → q.amount_paise ≡ p.amount_paise
    → q.currency ≡ p.currency
    → q.method ≡ p.method
    → IsLater p q
open_IsLater p q unpaid id user amount currency method = record {
  same_id = id;
  same_user = user;
  same_amount = amount;
  same_currency = currency;
  same_method = method;
  final = λ paid. absurd (true-ne-false (sym paid ∙ unpaid));
}

module _ ⦃env : Env⦄ (digests : HasDigests env) (before : Db) where
  s : Stable (Accounts before)
  s = Pushes-Stable (Accounts-Pushes before)

  -- What holds once the credit is in the ledger, while the payment's row waits.
  abbrev During : String → Payment → Db → Type 0
  During id p db =
      Accounts before db × (lookup id db.payments ≡ some p) × HasKey (deposit_key id) db

  During-Pushes : (id : String) (p : Payment) → Pushes (During id p)
  During-Pushes id p = record {
    pushed = λ u b r entry db (h, at, key). (
      (Accounts-Pushes before).pushed u b r entry db h,
      at,
      HasKey-push (deposit_key id) u b r entry db key,
    );
    aside = λ db after users ledger payments (h, at, (e, found)). (
      (Accounts-Pushes before).aside db after users ledger payments h,
      ap (lookup id) payments ∙ at,
      (e, ap (find_key (deposit_key id)) ledger ∙ found),
    );
  }

  paid-Accounts :
      (claim : Claim) (p : Payment) (db : Db)
      → During p.public_id p db
      → is_paid p.status ≡ false
      → Accounts before (mark_credited claim p db).1
  unfolding mark_credited change_payment
  paid-Accounts claim p db (h, at, key) unpaid =
      (then-Keeps (audit-Keeps s claim.actor "payment.credited" (some p.public_id) none)
          (return-Keeps {a = settled Verdict.credited p (some p.amount_paise)})).kept
        (change_payment p.public_id (now_paid claim.gateway_ref) db).1
        (change_payment-Accounts before p.public_id p (now_paid claim.gateway_ref) db h at
          (open_IsLater p _ unpaid refl refl refl refl refl) (λ _. key))

  module _ (claim : Claim) (p : Payment) (db : Db) (h : Accounts before db)
      (at : lookup p.public_id db.payments ≡ some p) (unpaid : is_paid p.status ≡ false) where
    hold-Accounts :
        (reason : Option String)
        → Accounts before (change_payment p.public_id (held_for reason) db).1
    hold-Accounts reason =
        change_payment-Accounts before p.public_id p (held_for reason) db h at
          (open_IsLater p _ unpaid refl refl refl refl refl) (λ e. absurd (true-ne-false (sym e)))

    credit_payment-Accounts : (u : User) → Accounts before (credit_payment claim p u db).1
    unfolding credit_payment new_idempotency_key
    credit_payment-Accounts u =
        credit-then (Accounts before) (During p.public_id p) (deposit_key p.public_id) _
          u.telegram_id p.amount_paise (deposit_label claim p) db (digests.not_empty _) h
          (λ x found. (h, at, (x, found)))
          (λ v b r entry same.
            ((Accounts-Pushes before).pushed v b r entry db h, at, HasKey-new v b r entry db same))
          (λ _ credited J.
            bind-Passes (credit_deposit_commission u p) _ credited (λ after (k, _, _). k)
              ((credit_deposit_commission-Keeps (credit-any (During-Pushes p.public_id p).pushed) u
                  p).kept
                credited J)
              (λ _ paid_out K. paid-Accounts claim p paid_out K unpaid))

    settle_owner-Accounts :
        (owner : Option User) → Accounts before (settle_owner claim p owner db).1
    unfolding settle_owner change_payment
    settle_owner-Accounts none = hold-Accounts (some "owner not found")
    settle_owner-Accounts (some u) = credit_payment-Accounts u

    settle_open-Accounts : Accounts before (settle_open claim p db).1
    unfolding settle_open hold_mismatch change_payment
    settle_open-Accounts = elim (Bool-cases (matches claim p)) [
      | inl good ↦ rw good (settle_owner-Accounts (lookup p.user_id db.users))
      | inr bad ↦ rw bad (
          (then-Keeps
              (audit-Keeps s claim.actor "payment.mismatch" (some p.public_id) (some claim.source))
              (return-Keeps {a = settled Verdict.amount_mismatch p claim.amount_paise})).kept
            _ (hold-Accounts (some (mismatch_text claim p))))
    ]

  settle_row-Accounts :
      (claim : Claim) (p : Payment) (db : Db)
      → Accounts before db
      → lookup p.public_id db.payments ≡ some p
      → Accounts before (settle_row claim (some p) db).1
  unfolding settle_row
  settle_row-Accounts claim p db h at = elim (Bool-cases (other_gateway claim p)) [
    | inl wrong ↦ rw wrong h
    | inr right ↦ elim (Bool-cases (other_ref claim p)) [
      | inl wrong ↦ rw (right, wrong) h
      | inr fits ↦ elim (Bool-cases (is_paid p.status)) [
        | inl paid ↦ rw (right, fits, paid) h
        | inr unpaid ↦ rw (right, fits, unpaid) (settle_open-Accounts claim p db h at unpaid)
      ]
    ]
  ]

  -- Where a payment is filed, its id is its key.
  lookup-filed :
      (id : String) (p : Payment) (db : Db)
      → Accounts before db
      → lookup id db.payments ≡ some p
      → lookup p.public_id db.payments ≡ some p
  lookup-filed id p db h at = subst (λ k. lookup k db.payments ≡ some p) (sym (h.filed id p at)) at

  settle_payment-Accounts : (claim : Claim) → Keeps (Accounts before) (settle_payment claim)
  unfolding settle_payment settle_row
  settle_payment-Accounts claim = record {
    kept = λ db h. elim (Option-cases (lookup claim.payment_public_id db.payments)) [
      | inl missing ↦ rw missing h
      | inr (p, at) ↦
          rw at (settle_row-Accounts claim p db h (lookup-filed claim.payment_public_id p db h at))
    ];
  }

  expire_pending-Accounts :
      (reference : String) → Keeps (Accounts before) (expire_pending reference)
  unfolding expire_pending expire_row change_payment
  expire_pending-Accounts reference = record {
    kept = λ db h. elim (Option-cases (lookup reference db.payments)) [
      | inl missing ↦ rw missing h
      | inr (p, at) ↦ elim (Bool-cases (is_pending p.status)) [
        | inl waiting ↦
            rw (at, waiting)
              (change_payment-Accounts before p.public_id p now_expired db h
                (lookup-filed reference p db h at)
                (open_IsLater p _ (pending-unpaid p.status waiting) refl refl refl refl refl)
                (λ e. absurd (true-ne-false (sym e))))
        | inr over ↦ rw (at, over) h
      ]
    ];
  }

  -- An id that no payment has may be given to a new one.
  module _ (db after : Db) (h : Accounts before db) (id : String) (row : Option Payment)
      (ledger : after.ledger ≡ db.ledger) (free : lookup id db.payments ≡ none)
      (changed : (j : String)
        → lookup j after.payments ≡ (if id == j then row else lookup j db.payments))
      (own : (p : Payment) → row ≡ some p → (p.public_id ≡ id) × (is_paid p.status ≡ false)) where
    changed-own : (j : String) → (id == j) ≡ true → lookup j after.payments ≡ row
    changed-own j same = changed j ∙ rw same refl

    changed-other :
        (j : String) → (id == j) ≡ false → lookup j after.payments ≡ lookup j db.payments
    changed-other j other = changed j ∙ rw other refl

    taken-elsewhere : (j : String) (p : Payment) → lookup j db.payments ≡ some p → (id == j) ≡ false
    taken-elsewhere j p at = elim (Bool-cases (id == j)) [
      | inl same ↦
          absurd
            (none-not-some (sym free ∙ ap (λ k. lookup k db.payments) ((==_iff id j).0 same) ∙ at))
      | inr other ↦ other
    ]

    opened-Accounts : Accounts before after
    opened-Accounts = record {
      filed = λ j p at. elim (Bool-cases (id == j)) [
        | inl same ↦ (own p (sym (changed-own j same) ∙ at)).0 ∙ (==_iff id j).0 same
        | inr other ↦ h.filed j p (sym (changed-other j other) ∙ at)
      ];
      follows = λ j p at.
          let (q, found, later) = h.follows j p at in
          (q, changed-other j (taken-elsewhere j q found) ∙ found, later);
      backed = λ j p at paid.
          subst (λ es. (e : LedgerEntry) × (find_key (deposit_key j) es ≡ some e)) (sym ledger)
            (elim (Bool-cases (id == j)) [
              | inl same ↦
                  absurd (true-ne-false (sym paid ∙ (own p (sym (changed-own j same) ∙ at)).1))
              | inr other ↦ h.backed j p (sym (changed-other j other) ∙ at) paid
            ]);
    }

  not_taken :
      (id : String) (existing : Option Payment) (db : Db)
      → is_taken id existing db ≡ false
      → lookup id db.payments ≡ none
  not_taken id (some p) db e = absurd (true-ne-false e)
  not_taken id none db e = elim (Option-cases (lookup id db.payments)) [
    | inl free ↦ free
    | inr (p, at) ↦ absurd (true-ne-false (subst (λ o. was_found o ≡ false) at e))
  ]

  module _ (settings : DepositSettings) (uid : ℕ) (amount : ℤ) (key id : String) (db : Db)
      (h : Accounts before db) (free : lookup id db.payments ≡ none) where
    abbrev added : Db
    added = add_invoice settings uid amount key id db

    abbrev fresh : Payment
    fresh = new_payment db.now settings uid amount key id

    added-Accounts : Accounts before added
    added-Accounts =
        opened-Accounts db added h id (some fresh) refl free
          (λ j. lookup-put id j fresh db.payments)
          (λ p e.
            subst (λ x. (x.public_id ≡ id) × (is_paid x.status ≡ false)) (some-inj e) (refl, refl))

    dropped-Accounts : Accounts before (drop_invoice id added)
    dropped-Accounts =
        opened-Accounts db (drop_invoice id added) h id none refl free
          (λ j. lookup-erase id j added.payments ∙ dropped j) (λ p e. absurd (none-not-some e))
      where
        dropped :
            (j : String)
            → (if id == j then none else lookup j (put id fresh db.payments))
              ≡ (if id == j then none else lookup j db.payments)
        dropped j = elim (Bool-cases (id == j)) [
          | inl same ↦ rw same refl
          | inr other ↦ rw (other, lookup-put id j fresh db.payments, other) refl
        ]

    asked-Accounts : (answer : CheckoutAnswer) → Accounts before (ask_checkout id answer added).1
    unfolding ask_checkout
    asked-Accounts not_configured = added-Accounts
    asked-Accounts unavailable = dropped-Accounts
    asked-Accounts (opened checkout) =
        change_payment-Accounts before id fresh (open_checkout checkout) added added-Accounts
          (lookup-put id id fresh db.payments ∙ rw (==_refl id) refl)
          (open_IsLater fresh (open_checkout checkout db.now fresh) refl refl refl refl refl refl)
          (λ e. absurd (true-ne-false (sym e)))

    invoice-Accounts :
        (answer : CheckoutAnswer) → Accounts before (finish_invoice settings id answer added).1
    unfolding finish_invoice
    invoice-Accounts answer = elim (Bool-cases (settings.payment_gateway == "razorpay")) [
      | inl online ↦ rw online (
          bind-Passes {I = Accounts before} {J = Accounts before} (ask_checkout id answer)
            (λ _. return id) added (λ _ k. k) (asked-Accounts answer) (λ _ _ k. k))
      | inr offline ↦ rw offline added-Accounts
    ]

  open_invoice-Accounts :
      (settings : DepositSettings) (uid : ℕ) (amount : ℤ) (key id : String)
      (answer : CheckoutAnswer) (existing : Option Payment)
      → Keeps (Accounts before) (open_invoice settings uid amount key id answer existing)
  unfolding open_invoice add_payment
  open_invoice-Accounts settings uid amount key id answer existing = record {
    kept = λ db h. elim (Bool-cases (is_taken id existing db)) [
      | inl taken ↦ rw taken h
      | inr new ↦
          rw new
            (invoice-Accounts settings uid amount key id db h (not_taken id existing db new) answer)
    ];
  }

  pub Accounts-Settling : Settling (Accounts before)
  Accounts-Settling = record {
    stable = s;
    settles = settle_payment-Accounts;
    expires = expire_pending-Accounts;
    opens = open_invoice-Accounts;
  }
