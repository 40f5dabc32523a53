-- ===== src/Payments/Guards.antt =====
-- When `settle_payment` of app/payments/service.py credits, and when it writes nothing.
use smmfalcron.Prelude.{
  ℕ, ◌≡◌, refl, inl, inr, ◌⊎◌, Bool, true, false, Option, none, some, List, arith, nat_eq,
  string_eq, ◌==◌, ◌&&◌, ==_iff, Bool-cases, ap,
}
use smmfalcron.Prelude.Int.{ℤ, eqb_ℤ_iff}
use smmfalcron.Table.{lookup}
use smmfalcron.Models.{Db, Payment, is_paid}
use smmfalcron.Env.{Env, HasDigests}
use smmfalcron.Catalog.{audit}
use smmfalcron.Payments.Settle.{
  Claim, is_amount, claimed_currency, other_gateway, other_ref, matches, change_payment,
  hold_mismatch, settle_open, settle_row, settle_payment,
}
use smmfalcron.Payments.Lifecycle.{Accounts}
use smmfalcron.Service.{Call, serve}
use smmfalcron.Service.Kept.{serve-Accounts}

module _ ⦃env : Env⦄ where
  -- What a claim must say of the invoice that it names.
  pub record Admits (claim : Claim) (db : Db) (p : Payment) : Type 0 where
    pub named : lookup claim.payment_public_id db.payments ≡ some p
    pub unpaid : is_paid p.status ≡ false
    pub channel : (p.method ≡ claim.gateway) ⊎ (claim.source ≡ "manual")
    pub amount : claim.amount_paise ≡ some p.amount_paise
    pub currency : claimed_currency claim p ≡ env.upper p.currency

  channel_of :
      (claim : Claim) (p : Payment)
      → other_gateway claim p ≡ false
      → (p.method ≡ claim.gateway) ⊎ (claim.source ≡ "manual")
  unfolding other_gateway
  channel_of claim p e = elim (Bool-cases (p.method == claim.gateway)) [
    | inl same ↦ inl ((==_iff p.method claim.gateway).0 same)
    | inr other ↦ elim (Bool-cases (claim.source == "manual")) [
      | inl manual ↦ inr ((==_iff claim.source "manual").0 manual)
      | inr neither ↦ absurd (ground (arith, e, other, neither))
    ]
  ]

  amount_of :
      (amount : Option ℤ) (expected : ℤ) → is_amount amount expected ≡ true → amount ≡ some expected
  amount_of none expected e = ground (arith, e)
  amount_of (some a) expected e = ap some ((eqb_ℤ_iff a expected).0 e)

  and_left : (a b : Bool) → (a && b) ≡ true → a ≡ true
  and_left true b e = refl
  and_left false b e = e

  and_right : (a b : Bool) → (a && b) ≡ true → b ≡ true
  and_right true b e = e
  and_right false b e = ground (arith, e)

  matches-amount :
      (claim : Claim) (p : Payment)
      → matches claim p ≡ true
      → claim.amount_paise ≡ some p.amount_paise
  unfolding matches
  matches-amount claim p e =
      amount_of claim.amount_paise p.amount_paise
        (and_left (is_amount claim.amount_paise p.amount_paise) _ e)

  matches-currency :
      (claim : Claim) (p : Payment)
      → matches claim p ≡ true
      → claimed_currency claim p ≡ env.upper p.currency
  unfolding matches
  matches-currency claim p e =
      (==_iff (claimed_currency claim p) (env.upper p.currency)).0
        (and_right (is_amount claim.amount_paise p.amount_paise) _ e)

  open_guarded :
      (claim : Claim) (p : Payment) (db : Db)
      → matches claim p ≡ false
      → (settle_open claim p db).1.ledger ≡ db.ledger
  unfolding settle_open hold_mismatch change_payment audit
  open_guarded claim p db e = rw e refl

  row_guarded :
      (claim : Claim) (row : Option Payment) (db : Db)
      → lookup claim.payment_public_id db.payments ≡ row
      → ((settle_row claim row db).1.ledger ≡ db.ledger) ⊎ ((p : Payment) × Admits claim db p)
  unfolding settle_row
  row_guarded claim none db at = inl refl
  row_guarded claim (some p) db at = elim (Bool-cases (other_gateway claim p)) [
    | inl wrong ↦ inl (rw wrong refl)
    | inr right ↦ elim (Bool-cases (other_ref claim p)) [
      | inl wrong ↦ inl (rw (right, wrong) refl)
      | inr fits ↦ elim (Bool-cases (is_paid p.status)) [
        | inl paid ↦ inl (rw (right, fits, paid) refl)
        | inr unpaid ↦ elim (Bool-cases (matches claim p)) [
          | inl good ↦ inr (
            p,
            record {
              named = at;
              unpaid = unpaid;
              channel = channel_of claim p right;
              amount = matches-amount claim p good;
              currency = matches-currency claim p good;
            },
          )
          | inr bad ↦ inl (rw (right, fits, unpaid) (open_guarded claim p db bad))
        ]
      ]
    ]
  ]

  -- Settling a payment leaves the ledger as it is, or there is a payment with the claimed id that
  -- was not paid, whose amount is the claimed one, whose currency is the claimed one in upper case,
  -- and whose gateway is the claiming one unless an operator claims.
  pub settle_guarded :
      (claim : Claim) (db : Db)
      → ((settle_payment claim db).1.ledger ≡ db.ledger) ⊎ ((p : Payment) × Admits claim db p)
  unfolding settle_payment
  settle_guarded claim db = row_guarded claim (lookup claim.payment_public_id db.payments) db refl

  paid_row :
      (claim : Claim) (p : Payment) (db : Db)
      → is_paid p.status ≡ true
      → (settle_row claim (some p) db).1 ≡ db
  unfolding settle_row
  paid_row claim p db paid = elim (Bool-cases (other_gateway claim p)) [
    | inl wrong ↦ rw wrong refl
    | inr right ↦ elim (Bool-cases (other_ref claim p)) [
      | inl wrong ↦ rw (right, wrong) refl
      | inr fits ↦ rw (right, fits, paid) refl
    ]
  ]

  -- Where digests are not empty, and the payments are filed by their ids and the paid ones have the
  -- ledger entry of their deposit: once a payment is paid, then after any calls of the service, in
  -- any order and with any answers, no claim on it writes anything, whoever makes it.
  pub paid_once :
      HasDigests env
      → (calls : List (ℕ × Call)) (db : Db) (claim : Claim) (p : Payment) → Accounts db db
      → lookup claim.payment_public_id db.payments ≡ some p
      → is_paid p.status ≡ true
      → (settle_payment claim (serve calls db)).1 ≡ serve calls db
  unfolding settle_payment
  paid_once digests calls db claim p h at paid =
      let (q, found, later) =
        (serve-Accounts digests calls db h).follows claim.payment_public_id p at in
      rw (found, later.final paid) (paid_row claim p (serve calls db) paid)
