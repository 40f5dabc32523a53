-- ===== src/Referrals/Kept.antt =====
-- The commissions of app/referrals.py and the audit rows of app/audit.py keep whatever is stable.
use smmfalcron.Prelude.{
  ℕ, refl, String, Option, none, some, [], ◌∷◌, take, append, if◌then◌else◌, nat_eq, string_eq, ltb,
}
use smmfalcron.Prelude.Int.{ℤ, pos, leb_ℤ}
use smmfalcron.Models.{Db, User, Order, Payment}
use smmfalcron.Env.{Env}
use smmfalcron.Security.{new_idempotency_key}
use smmfalcron.Session.Keeps.{Keeps, bind-Keeps, read-Keeps, return-Keeps, if-Keeps}
use smmfalcron.Wallet.{Label, credit}
use smmfalcron.Wallet.Stable.{Stable, write-Keeps}
use smmfalcron.Catalog.{audit}
use smmfalcron.Referrals.{
  commission_paise, referral_label, has, completed_ids, referrer_of, commission_for, earns_nothing,
  pay_commission, credit_order_commission, credit_deposit_commission, paid_count,
  no_deposit_commission,
}

module _ ⦃env : Env⦄ {I : Db → Type 0}
    (credits : (uid : ℕ) (amount : ℤ) (label : Label) (key : Option String)
      → Keeps I (credit uid amount label key)) where
  pay_commission-Keeps :
      (to : Option User) (amount : ℤ) (label : Label) (key : String)
      → Keeps I (pay_commission to amount label key)
  unfolding pay_commission
  pay_commission-Keeps none amount label key = return-Keeps
  pay_commission-Keeps (some r) amount label key =
      if-Keeps (leb_ℤ amount (pos 0)) return-Keeps
        (bind-Keeps (credits _ amount label _) λ entry. return-Keeps)

  commission_for-Keeps :
      (buyer : Option User) (order : Order) → Keeps I (commission_for buyer order)
  unfolding commission_for
  commission_for-Keeps none order = return-Keeps
  commission_for-Keeps (some buyer) order =
      bind-Keeps (read-Keeps {f = λ db. has order.id (take 3 (completed_ids buyer.telegram_id db))})
        λ first. bind-Keeps (read-Keeps {f = referrer_of buyer}) λ referrer.
          pay_commission-Keeps (if first then referrer else none)
            (commission_paise order.charge_paise 8)
            (referral_label (append "Referral 8% " order.public_id) order.public_id)
            (new_idempotency_key ("reford" ∷ order.public_id ∷ []))

  pub credit_order_commission-Keeps : (order : Order) → Keeps I (credit_order_commission order)
  unfolding credit_order_commission
  credit_order_commission-Keeps order =
      if-Keeps (earns_nothing order) return-Keeps
        (bind-Keeps read-Keeps λ row. commission_for-Keeps row order)

  pub credit_deposit_commission-Keeps :
      (buyer : User) (payment : Payment) → Keeps I (credit_deposit_commission buyer payment)
  unfolding credit_deposit_commission
  credit_deposit_commission-Keeps buyer payment =
      if-Keeps (no_deposit_commission buyer payment) return-Keeps (
        bind-Keeps (read-Keeps {f = paid_count buyer.telegram_id}) λ paid.
          bind-Keeps (read-Keeps {f = referrer_of buyer}) λ referrer.
            pay_commission-Keeps (if ltb 1 paid then none else referrer)
              (commission_paise payment.amount_paise 5)
              (referral_label (append "Referral 5% first deposit " payment.public_id)
                payment.public_id)
              (new_idempotency_key ("refdep" ∷ env.str_int (pos buyer.telegram_id) ∷ [])))

module _ ⦃env : Env⦄ {I : Db → Type 0} (s : Stable I) where
  pub audit-Keeps :
      (actor action : String) (target reason : Option String)
      → Keeps I (audit actor action target reason)
  unfolding audit
  audit-Keeps actor action target reason = write-Keeps s _ (λ _. refl) (λ _. refl) (λ _. refl)
