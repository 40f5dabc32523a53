-- ===== src/Payments/Sound.antt =====
-- The payments of app/payments/service.py keep the books of the wallet.
use smmfalcron.Prelude.{ℕ, ◌≡◌, refl, String, Option, nat_eq, string_eq, ◌==◌}
use smmfalcron.Prelude.Int.{ℤ}
use smmfalcron.Models.{Db, Payment}
use smmfalcron.Env.{Env}
use smmfalcron.Session.{write, integrity_error}
use smmfalcron.Session.Keeps.{
  Keeps, then-Keeps, bind-Keeps, read-Keeps, return-Keeps, throw-Keeps, raise_if-Keeps, if-Keeps,
}
use smmfalcron.Wallet.Invariant.{IsSound}
use smmfalcron.Wallet.Stable.{IsSound-Stable, books-IsSound}
use smmfalcron.Referrals.Kept.{audit-Keeps}
use smmfalcron.Payments.Gateway.{CheckoutAnswer, not_configured, unavailable, opened}
use smmfalcron.Payments.Settle.{change_payment}
use smmfalcron.Payments.Deposits.{
  DepositSettings, is_taken, open_checkout, add_invoice, drop_invoice, add_payment, ask_checkout,
  open_invoice, finish_invoice,
}
use smmfalcron.Payments.Kept.{Settling}
use smmfalcron.Payments.Steps.{settle_payment-Keeps, expire_pending-Keeps}

write-IsSound :
    (f : Db → Db)
    → ((db : Db) → (f db).users ≡ db.users)
    → ((db : Db) → (f db).ledger ≡ db.ledger)
    → Keeps IsSound (write f)
write-IsSound f users ledger = record {
  kept = λ db h. books-IsSound db (f db) (users db) (ledger db) h;
}

change_payment-IsSound :
    (public_id : String) (f : ℕ → Payment → Payment) → Keeps IsSound (change_payment public_id f)
unfolding change_payment
change_payment-IsSound public_id f = write-IsSound _ (λ _. refl) (λ _. refl)

ask_checkout-IsSound :
    (public_id : String) (answer : CheckoutAnswer) → Keeps IsSound (ask_checkout public_id answer)
unfolding ask_checkout
ask_checkout-IsSound public_id not_configured = throw-Keeps _
ask_checkout-IsSound public_id unavailable =
    then-Keeps (write-IsSound (drop_invoice public_id) (λ _. refl) (λ _. refl)) (throw-Keeps _)
ask_checkout-IsSound public_id (opened checkout) =
    change_payment-IsSound public_id (open_checkout checkout)

open_invoice-IsSound :
    (settings : DepositSettings) (uid : ℕ) (amount : ℤ) (key public_id : String)
    (answer : CheckoutAnswer) (existing : Option Payment)
    → Keeps IsSound (open_invoice settings uid amount key public_id answer existing)
unfolding open_invoice add_payment finish_invoice
open_invoice-IsSound settings uid amount key public_id answer existing =
    then-Keeps
      (bind-Keeps (read-Keeps {f = is_taken public_id existing}) λ taken.
        then-Keeps (raise_if-Keeps taken integrity_error)
          (write-IsSound (add_invoice settings uid amount key public_id) (λ _. refl) (λ _. refl)))
      (then-Keeps
        (if-Keeps (settings.payment_gateway == "razorpay") (ask_checkout-IsSound public_id answer)
          (return-Keeps {a = tt}))
        (return-Keeps {a = public_id}))

module _ ⦃env : Env⦄ where
  pub IsSound-Settling : Settling IsSound
  IsSound-Settling = record {
    stable = IsSound-Stable;
    settles =
        settle_payment-Keeps change_payment-IsSound IsSound-Stable.credits
          (audit-Keeps IsSound-Stable);
    expires = expire_pending-Keeps change_payment-IsSound;
    opens = open_invoice-IsSound;
  }
