-- ===== src/Payments/Completes.antt =====
-- A matching claim on an open payment is settled: `settle_payment` of app/payments/service.py credits
-- the wallet and marks the payment as paid.
use mathlib.Core.Path.{subst}
use smmfalcron.Prelude.{
  ℕ, ◌≡◌, ◌≢◌, refl, inl, inr, String, Bool, true, false, Option, none, some, arith, nat_eq,
  string_eq, ◌==◌, ==_refl, ltb, Bool-cases, Option-cases, if◌then◌else◌, sym, ap, ◌∙◌,
}
use smmfalcron.Prelude.Int.{ℤ, pos, ◌+ℤ◌, ◌<ℤ◌, leb_ℤ, leb_ℤ→gt}
use smmfalcron.Table.{lookup, lookup-adjust}
use smmfalcron.Models.{Db, User, LedgerEntry, EntryType, Payment, PaymentStatus, is_paid}
use smmfalcron.Env.{Env, HasDigests}
use smmfalcron.Security.{new_idempotency_key}
use smmfalcron.Session.{Outcome, returns, raises, return, Returned, Session, and_then}
use smmfalcron.Wallet.{Label, find_key, payment_key, ledger_entry, push, with_balances, credit}
use smmfalcron.Wallet.Invariant.{IsSound, credit-IsSound}
use smmfalcron.Wallet.Replay.{once-found}
use smmfalcron.Wallet.Effects.{Meets, IsSound-Meets, credit_lem, lookup-push, lookup-push_ne}
use smmfalcron.Wallet.Pushes.{key_or-given}
use smmfalcron.Catalog.{audit}
use smmfalcron.Referrals.{
  paid_count, referrer_row, unless_self, referrer_of, pay_commission, no_deposit_commission,
  credit_deposit_commission,
}
use smmfalcron.Payments.Gateway.{Verdict, SettleOutcome}
use smmfalcron.Payments.Webhook.{is_open_status}
use smmfalcron.Payments.Settle.{
  Claim, deposit_key, deposit_label, now_paid, other_gateway, other_ref, matches, change_payment,
  settled, mark_credited, credit_payment, settle_owner, settle_open, settle_row, settle_payment,
}

-- A call that returns, and leaves the payments and one user's row as they were.
abbrev Calm {ℓ} : {A : Type ℓ} → ℕ → Db → Outcome A × Db → Type 0
Calm uid db (out, after) =
    Returned out × (after.payments ≡ db.payments) × (lookup uid after.users ≡ lookup uid db.users)

Calm-and_then {ℓ κ} :
    {A : Type ℓ} {B : Type κ} (uid : ℕ) (k : A → Session B) (out : Outcome A) (db after : Db)
    → Calm uid db (out, after)
    → ((a : A) → Calm uid after (k a after))
    → Calm uid db (and_then out k after)
Calm-and_then uid k (returns a) db after (_, payments, users) rest =
    let (back, payments', users') = rest a in (back, payments' ∙ payments, users' ∙ users)
Calm-and_then uid k (raises e) db after (back, _, _) rest = absurd back

open_unpaid : (s : PaymentStatus) → is_open_status s ≡ true → is_paid s ≡ false
open_unpaid PaymentStatus.pending e = refl
open_unpaid PaymentStatus.paid e = ground (arith, e)
open_unpaid PaymentStatus.expired e = refl
open_unpaid PaymentStatus.failed e = refl
open_unpaid PaymentStatus.review e = refl

-- What a referrer must be: someone else, with a row.
abbrev Listed : ℕ → Db → Option User → Type 0
Listed uid db none = Unit
Listed uid db (some r) = (lookup r.telegram_id db.users ≡ some r) × (r.telegram_id ≢ uid)

if-Listed :
    (c : Bool) (uid : ℕ) (db : Db) (to : Option User)
    → Listed uid db to
    → Listed uid db (if c then none else to)
if-Listed true uid db to h = tt
if-Listed false uid db to h = h

-- The claim was answered as credited, the payment is paid, and its amount is on its owner's balance.
abbrev pub Settled : Payment → User → Outcome SettleOutcome × Db → Type 0
Settled p u (out, after) =
    (out ≡ returns (settled Verdict.credited p (some p.amount_paise)))
    × ((q : Payment) × (lookup p.public_id after.payments ≡ some q) × (is_paid q.status ≡ true))
    × ((v : User) × (lookup p.user_id after.users ≡ some v)
        × (v.cached_balance_paise ≡ u.cached_balance_paise +ℤ p.amount_paise)
        × (v.cached_reserved_paise ≡ u.cached_reserved_paise))

module _ ⦃env : Env⦄ where
  -- Another user's row is not touched by a credit, which returns in a sound database.
  credit-Calm :
      (uid rid : ℕ) (r : User) (amount : ℤ) (label : Label) (key : Option String) (db : Db)
      → IsSound db
      → lookup rid db.users ≡ some r
      → r.telegram_id ≢ uid
      → pos 0 <ℤ amount
      → Calm uid db (credit rid amount label key db)
  unfolding credit
  credit-Calm uid rid r amount label key db h at other amt =
      let k = payment_key "credit" amount label key r in
      elim (Option-cases (find_key k db.ledger)) [
        | inl new ↦
            let b = r.cached_balance_paise +ℤ amount in
            let entry =
              ledger_entry db.now r amount EntryType.credit label k b r.cached_reserved_paise in
            subst (Calm uid db)
              (sym (
                credit_lem rid r amount label key db
                  (IsSound-Meets rid r amount k db h at amt new)))
              (tt, refl, lookup-push_ne r b r.cached_reserved_paise entry db uid other)
        | inr (x, old) ↦
            subst (Calm uid db)
              (sym (
                once-found amount "Credit amount must be positive" rid
                  (payment_key "credit" amount label key) _ r x db amt at old))
              (tt, refl, refl)
      ]

  pay_commission-Calm :
      (uid : ℕ) (to : Option User) (amount : ℤ) (label : Label) (key : String) (db : Db)
      → IsSound db
      → Listed uid db to
      → Calm uid db (pay_commission to amount label key db)
  unfolding pay_commission
  pay_commission-Calm uid none amount label key db h listed = (tt, refl, refl)
  pay_commission-Calm uid (some r) amount label key db h (at, other) =
      elim (Bool-cases (leb_ℤ amount (pos 0))) [
        | inl nothing ↦ rw nothing (tt, refl, refl)
        | inr something ↦ rw something (
            Calm-and_then uid (λ entry. return (some entry))
              (credit r.telegram_id amount label (some key) db).0 db _
              (credit-Calm uid r.telegram_id r amount label (some key) db h at other
                (leb_ℤ→gt amount (pos 0) something))
              (λ _. (tt, refl, refl)))
      ]

  -- A user has one row, under the user's own id.
  referrer_row-own :
      (referred_by : Option ℕ) (db : Db) (r : User)
      → IsSound db
      → referrer_row referred_by db ≡ some r
      → lookup r.telegram_id db.users ≡ some r
  referrer_row-own none db r h e = ground (arith, e)
  referrer_row-own (some rid) db r h e =
      subst (λ k. lookup k db.users ≡ some r) (sym (h.wallets rid r e).own_row) e

  unless_self-Listed :
      (buyer : User) (row : Option User) (db : Db)
      → ((r : User) → row ≡ some r → lookup r.telegram_id db.users ≡ some r)
      → Listed buyer.telegram_id db (unless_self buyer row)
  unless_self-Listed buyer none db own = tt
  unless_self-Listed buyer (some r) db own =
      elim (Bool-cases (r.telegram_id == buyer.telegram_id)) [
        | inl same ↦ rw same tt
        | inr other ↦ rw other (own r refl, (λ same. ground (arith, same, other)))
      ]

  referrer_of-Listed :
      (buyer : User) (db : Db) → IsSound db → Listed buyer.telegram_id db (referrer_of buyer db)
  referrer_of-Listed buyer db h =
      unless_self-Listed buyer (referrer_row buyer.referred_by db) db
        (λ r. referrer_row-own buyer.referred_by db r h)

  commission-Calm :
      (buyer : User) (p : Payment) (db : Db)
      → IsSound db
      → Calm buyer.telegram_id db (credit_deposit_commission buyer p db)
  unfolding credit_deposit_commission
  commission-Calm buyer p db h = elim (Bool-cases (no_deposit_commission buyer p)) [
    | inl nothing ↦ rw nothing (tt, refl, refl)
    | inr something ↦ rw something (
        pay_commission-Calm buyer.telegram_id
          (if ltb 1 (paid_count buyer.telegram_id db) then none else referrer_of buyer db) _ _ _ db
          h
          (if-Listed (ltb 1 (paid_count buyer.telegram_id db)) buyer.telegram_id db
            (referrer_of buyer db) (referrer_of-Listed buyer db h)))
  ]

  module _ (claim : Claim) (p : Payment) (u : User) (db : Db) (h : IsSound db)
      (at : lookup p.user_id db.users ≡ some u) (filed : lookup p.public_id db.payments ≡ some p)
      (amt : pos 0 <ℤ p.amount_paise) (digests : HasDigests env)
      (fresh : find_key (deposit_key p.public_id) db.ledger ≡ none) where
    abbrev key : String
    key =
        payment_key "credit" p.amount_paise (deposit_label claim p) (some (deposit_key p.public_id))
          u

    key-eq : key ≡ deposit_key p.public_id
    unfolding new_idempotency_key
    key-eq = key_or-given (deposit_key p.public_id) _ (digests.not_empty _)

    own : u.telegram_id ≡ p.user_id
    own = (h.wallets p.user_id u at).own_row

    credited-Meets : Meets u.telegram_id u p.amount_paise key db
    credited-Meets =
        IsSound-Meets u.telegram_id u p.amount_paise key db h
          (subst (λ k. lookup k db.users ≡ some u) (sym own) at) amt
          (subst (λ k. find_key k db.ledger ≡ none) (sym key-eq) fresh)

    abbrev entry : LedgerEntry
    entry =
        ledger_entry db.now u p.amount_paise EntryType.credit (deposit_label claim p) key
          (u.cached_balance_paise +ℤ p.amount_paise) u.cached_reserved_paise

    abbrev credited_db : Db
    credited_db = push u (u.cached_balance_paise +ℤ p.amount_paise) u.cached_reserved_paise entry db

    credit_eq :
        credit u.telegram_id p.amount_paise
          (deposit_label claim p)
          (some (deposit_key p.public_id))
          db
        ≡ (returns entry, credited_db)
    credit_eq =
        credit_lem u.telegram_id u p.amount_paise (deposit_label claim p)
          (some (deposit_key p.public_id)) db credited-Meets

    credited_db-IsSound : IsSound credited_db
    credited_db-IsSound = subst IsSound (ap (λ (x : Outcome LedgerEntry × Db). x.1) credit_eq) (
        credit-IsSound u.telegram_id p.amount_paise (deposit_label claim p)
          (some (deposit_key p.public_id)) db h)

    marked-Settled :
        (out : Outcome (Option LedgerEntry)) (after : Db)
        → Calm u.telegram_id credited_db (out, after)
        → Settled p u (and_then out (λ _. mark_credited claim p) after)
    unfolding mark_credited change_payment audit
    marked-Settled (raises e) after (back, _, _) = absurd back
    marked-Settled (returns _) after (_, payments, users) = (
      refl,
      (
        now_paid claim.gateway_ref after.now p,
        lookup-adjust p.public_id p.public_id (now_paid claim.gateway_ref after.now) after.payments
            ∙ rw (==_refl p.public_id, payments, filed) refl,
        refl,
      ),
      (
        with_balances db u (u.cached_balance_paise +ℤ p.amount_paise) u.cached_reserved_paise,
        subst
            (λ k.
              lookup k after.users
              ≡ some (
                  with_balances db u (u.cached_balance_paise +ℤ p.amount_paise)
                    u.cached_reserved_paise))
            own
            (users
              ∙ lookup-push u (u.cached_balance_paise +ℤ p.amount_paise) u.cached_reserved_paise
                  entry db u.telegram_id refl),
        refl,
        refl,
      ),
    )

    credit_payment-Settled : Settled p u (credit_payment claim p u db)
    unfolding credit_payment
    credit_payment-Settled = rw credit_eq (
        marked-Settled (credit_deposit_commission u p credited_db).0
          (credit_deposit_commission u p credited_db).1
          (commission-Calm u p credited_db credited_db-IsSound))

    -- The claim names the payment, and says what the invoice says.
    module _ (named : claim.payment_public_id ≡ p.public_id) (right : other_gateway claim p ≡ false)
        (fits : other_ref claim p ≡ false) (good : matches claim p ≡ true) where
      pub unpaid-Settled : is_paid p.status ≡ false → Settled p u (settle_payment claim db)
      unfolding settle_payment settle_row settle_open settle_owner
      unpaid-Settled unpaid =
          rw
            (
              subst (λ k. lookup k db.payments ≡ some p) (sym named) filed,
              right,
              fits,
              unpaid,
              good,
              at,
            )
            credit_payment-Settled

      -- From a sound database where digests are not empty: a claim that names a payment by its id,
      -- comes from its gateway or an operator, does not name another reference, and has its amount
      -- and currency, where the payment is pending or expired, its amount is positive, its owner is
      -- a user, and its deposit's key is new to the ledger, is answered as credited; afterwards the
      -- payment is paid, and the owner's balance is higher by exactly the amount, the reserved part
      -- as before, whatever the referrer is paid.
      pub settle_completes : is_open_status p.status ≡ true → Settled p u (settle_payment claim db)
      settle_completes awaited = unpaid-Settled (open_unpaid p.status awaited)
