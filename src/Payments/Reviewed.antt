-- ===== src/Payments/Reviewed.antt =====
-- A payment that `settle_payment` of app/payments/service.py holds for review, and what a later claim
-- does to it.
use smmfalcron.Prelude.{◌≡◌, refl, sym, true, false, some, none, nat_eq, string_eq, ==_refl, ◌∙◌}
use mathlib.Core.Path.{subst}
use smmfalcron.Prelude.Int.{pos, ◌<ℤ◌}
use smmfalcron.Table.{lookup, lookup-adjust}
use smmfalcron.Models.{Db, User, Payment, PaymentStatus, is_paid}
use smmfalcron.Env.{Env, HasDigests}
use smmfalcron.Catalog.{audit}
use smmfalcron.Wallet.{find_key}
use smmfalcron.Wallet.Invariant.{IsSound}
use smmfalcron.Wallet.Stable.{books-IsSound}
use smmfalcron.Payments.Settle.{
  Claim, deposit_key, other_gateway, other_ref, matches, held_for, mismatch_text, change_payment,
  hold_mismatch, settle_open, settle_row, settle_payment,
}
use smmfalcron.Payments.Completes.{Settled, unpaid-Settled}

module _ ⦃env : Env⦄ (bad good : Claim) (p : Payment) (u : User) (db : Db) (h : IsSound db)
    (at : lookup p.user_id db.users ≡ some u) (filed : lookup p.public_id db.payments ≡ some p)
    (amt : pos 0 <ℤ p.amount_paise) (digests : HasDigests env)
    (fresh : find_key (deposit_key p.public_id) db.ledger ≡ none)
    (unpaid : is_paid p.status ≡ false) (bad_named : bad.payment_public_id ≡ p.public_id)
    (bad_right : other_gateway bad p ≡ false) (bad_fits : other_ref bad p ≡ false)
    (mismatch : matches bad p ≡ false) (good_named : good.payment_public_id ≡ p.public_id)
    (good_right : other_gateway good p ≡ false) (good_fits : other_ref good p ≡ false)
    (match : matches good p ≡ true) where
  abbrev held : Payment
  held = held_for (some (mismatch_text bad p)) db.now p

  held_eq : settle_payment bad db ≡ hold_mismatch bad p db
  unfolding settle_payment settle_row settle_open
  held_eq =
      rw
        (
          subst (λ k. lookup k db.payments ≡ some p) (sym bad_named) filed,
          bad_right,
          bad_fits,
          unpaid,
          mismatch,
        )
        refl

  held_filed : lookup p.public_id (hold_mismatch bad p db).1.payments ≡ some held
  unfolding hold_mismatch change_payment audit
  held_filed =
      lookup-adjust p.public_id p.public_id (held_for (some (mismatch_text bad p)) db.now)
        db.payments
      ∙ rw (==_refl p.public_id, filed) refl

  held-Settled : Settled p u (settle_payment good (hold_mismatch bad p db).1)
  unfolding hold_mismatch change_payment audit other_gateway other_ref matches
  held-Settled =
      let after = (hold_mismatch bad p db).1 in
      unpaid-Settled good held u after (books-IsSound db after refl refl h) at held_filed amt
        digests fresh good_named good_right good_fits match refl

  -- In a sound database where digests are not empty, take a payment that is not paid, with a positive
  -- amount, whose owner is a user and whose deposit's key is new to the ledger, and two claims that
  -- name it by its id, each from its gateway or an operator and without another reference. A first
  -- claim with another amount or currency puts the payment under review; a second one that has the
  -- invoice's amount and currency is then answered as credited all the same, the payment is paid,
  -- and the owner's balance is higher by exactly the amount.
  pub review_is_credited :
      ((q : Payment) × (lookup p.public_id (settle_payment bad db).1.payments ≡ some q)
        × (q.status ≡ PaymentStatus.review))
      × Settled p u (settle_payment good (settle_payment bad db).1)
  review_is_credited = rw held_eq ((held, held_filed, refl), held-Settled)
