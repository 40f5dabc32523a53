-- ===== src/Payments/Steps.antt =====
-- A settlement and an expiry of app/payments/service.py keep what its steps keep: the changes of a
-- payment, the credits and the audit rows.
use smmfalcron.Prelude.{ℕ, String, not, Option, none, some, nat_eq, string_eq}
use smmfalcron.Prelude.Int.{ℤ}
use smmfalcron.Table.{lookup}
use smmfalcron.Models.{Db, User, Payment, is_paid, is_pending}
use smmfalcron.Env.{Env}
use smmfalcron.Session.Keeps.{Keeps, then-Keeps, bind-Keeps, read-Keeps, return-Keeps, if-Keeps}
use smmfalcron.Wallet.{Label, credit}
use smmfalcron.Catalog.{audit}
use smmfalcron.Referrals.Kept.{credit_deposit_commission-Keeps}
use smmfalcron.Payments.Gateway.{Verdict}
use smmfalcron.Payments.Settle.{
  Claim, other_gateway, other_ref, matches, change_payment, mismatch_text, held_for, now_paid,
  deposit_label, deposit_key, hold_mismatch, mark_credited, credit_payment, settle_owner,
  settle_open, settle_row, settle_payment, settled,
}
use smmfalcron.Payments.Webhook.{now_expired, expire_row, expire_pending}

module _ {I : Db → Type 0}
    (changes : (public_id : String) (f : ℕ → Payment → Payment)
      → Keeps I (change_payment public_id f)) where
  expire_row-Keeps : (row : Option Payment) → Keeps I (expire_row row)
  unfolding expire_row
  expire_row-Keeps none = return-Keeps
  expire_row-Keeps (some p) =
      if-Keeps (is_pending p.status) (then-Keeps (changes p.public_id now_expired) return-Keeps)
        return-Keeps

  pub expire_pending-Keeps : (reference : String) → Keeps I (expire_pending reference)
  unfolding expire_pending
  expire_pending-Keeps reference =
      bind-Keeps (read-Keeps {f = λ db. lookup reference db.payments}) λ row. expire_row-Keeps row

  module _ ⦃env : Env⦄
      (credits : (uid : ℕ) (amount : ℤ) (label : Label) (key : Option String)
        → Keeps I (credit uid amount label key))
      (audits : (actor action : String) (target reason : Option String)
        → Keeps I (audit actor action target reason)) where
    settle_owner-Keeps :
        (claim : Claim) (p : Payment) (owner : Option User) → Keeps I (settle_owner claim p owner)
    unfolding settle_owner credit_payment mark_credited
    settle_owner-Keeps claim p none =
        then-Keeps (changes p.public_id (held_for (some "owner not found"))) return-Keeps
    settle_owner-Keeps claim p (some u) =
        then-Keeps
          (credits u.telegram_id p.amount_paise (deposit_label claim p)
            (some (deposit_key p.public_id)))
          (then-Keeps (credit_deposit_commission-Keeps credits u p) (
            then-Keeps (changes p.public_id (now_paid claim.gateway_ref)) (
              then-Keeps (audits claim.actor "payment.credited" (some p.public_id) none)
                return-Keeps)))

    settle_open-Keeps : (claim : Claim) (p : Payment) → Keeps I (settle_open claim p)
    unfolding settle_open hold_mismatch
    settle_open-Keeps claim p =
        if-Keeps (not (matches claim p))
          (then-Keeps (changes p.public_id (held_for (some (mismatch_text claim p)))) (
            then-Keeps
              (audits claim.actor "payment.mismatch" (some p.public_id) (some claim.source))
              (return-Keeps {a = settled Verdict.amount_mismatch p claim.amount_paise})))
          (bind-Keeps (read-Keeps {f = λ db. lookup p.user_id db.users})
            λ owner. settle_owner-Keeps claim p owner)

    settle_row-Keeps : (claim : Claim) (row : Option Payment) → Keeps I (settle_row claim row)
    unfolding settle_row
    settle_row-Keeps claim none = return-Keeps
    settle_row-Keeps claim (some p) =
        if-Keeps (other_gateway claim p)
          (return-Keeps {a = settled Verdict.gateway_mismatch p none})
          (if-Keeps (other_ref claim p) (return-Keeps {a = settled Verdict.ref_mismatch p none}) (
            if-Keeps (is_paid p.status)
              (return-Keeps {a = settled Verdict.already_paid p (some p.amount_paise)})
              (settle_open-Keeps claim p)))

    pub settle_payment-Keeps : (claim : Claim) → Keeps I (settle_payment claim)
    unfolding settle_payment
    settle_payment-Keeps claim =
        bind-Keeps (read-Keeps {f = λ db. lookup claim.payment_public_id db.payments})
          λ row. settle_row-Keeps claim row
