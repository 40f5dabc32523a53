-- ===== src/Catalog/Closed.antt =====
-- The kill switches of app/catalog.py, as the operations meet them that must not run while the
-- platform is closed: app/orders.py and app/payments/service.py.
use smmfalcron.Prelude.{
  ℕ, ◌≡◌, ◌⊎◌, refl, inl, inr, String, Bool, true, false, Option, Bool-cases, Option-cases, nat_eq,
}
use smmfalcron.Prelude.Int.{ℤ}
use smmfalcron.Table.{lookup}
use smmfalcron.Models.{Db, User, Order}
use smmfalcron.Env.{Env}
use smmfalcron.Session.{
  Session, Error, raises, permission_error, order_error, no_such_row, ◌>>=◌, ◌>>◌, raise_if,
  rethrow,
}
use smmfalcron.Catalog.{
  is_kill_on, closed, assert_orders_open, assert_payments_open, assert_refills_open,
}
use smmfalcron.Orders.Place.{Request, ProviderAnswer, place_order}
use smmfalcron.Orders.Actions.{request_refill}
use smmfalcron.Payments.Gateway.{CheckoutAnswer}
use smmfalcron.Payments.Deposits.{DepositSettings, as_deposit_error, create_deposit}

-- The operation raises, and has written nothing.
pub record Refused {ℓ} {A : Type ℓ} (m : Session A) (db : Db) : Type ℓ where
  pub error : Error
  pub ended : m db ≡ (raises error, db)

module _ {ℓ κ} {A : Type ℓ} {B : Type κ} (db : Db) where
  bind-Refused : (m : Session A) (k : A → Session B) → Refused m db → Refused (m >>= k) db
  bind-Refused m k h = record { error = h.error; ended = rw h.ended refl }

module _ {ℓ} {A : Type ℓ} (db : Db) where
  raise_if-Refused :
      (c : Bool) (e : Error) (k : Session A) → Refused k db → Refused (raise_if c e >> k) db
  raise_if-Refused true e k h = record { error = e; ended = refl }
  raise_if-Refused false e k h = record { error = h.error; ended = h.ended }

rethrow-Refused {ℓ} :
    {A : Type ℓ} (db : Db) (f : Error → Error) (m : Session A)
    → Refused m db
    → Refused (rethrow f m) db
rethrow-Refused db f m h = record { error = f h.error; ended = rw h.ended refl }

module _ ⦃env : Env⦄ where
  -- The platform is in maintenance, or read-only.
  abbrev pub IsShut : Db → Type 0
  IsShut db = (is_kill_on "global_maintenance" db ≡ true) ⊎ (is_kill_on "read_only" db ≡ true)

module _ ⦃env : Env⦄ (db : Db) (shut : IsShut db) where
  closed_any : (switch : String) → closed switch db ≡ true
  unfolding closed
  closed_any switch = elim shut [
    | inl maintenance ↦ rw maintenance refl
    | inr read_only ↦ elim (Bool-cases (is_kill_on "global_maintenance" db)) [
      | inl on ↦ rw on refl
      | inr off ↦ rw (off, read_only) refl
    ]
  ]

  assert_payments_open-Refused : Refused assert_payments_open db
  unfolding assert_payments_open
  assert_payments_open-Refused = record {
    error = permission_error "Deposits are temporarily paused.";
    ended = rw (closed_any "kill_payments") refl;
  }

  assert_refills_open-Refused : Refused assert_refills_open db
  unfolding assert_refills_open
  assert_refills_open-Refused = record {
    error = permission_error "Refills are temporarily paused.";
    ended = rw (closed_any "kill_refills") refl;
  }

  assert_orders_open-Refused : Refused assert_orders_open db
  unfolding assert_orders_open
  assert_orders_open-Refused = elim (Bool-cases (is_kill_on "global_maintenance" db)) [
    | inl on ↦ record {
      error = permission_error "FALARON is in maintenance. Please try again later.";
      ended = rw on refl;
    }
    | inr off ↦ elim shut [
      | inl on ↦ record {
        error = permission_error "FALARON is in maintenance. Please try again later.";
        ended = rw on refl;
      }
      | inr read_only ↦ record {
        error = permission_error "The platform is in read-only mode.";
        ended = rw (off, read_only) refl;
      }
    ]
  ]

  place_order-Refused :
      (uid : ℕ) (req : Request) (token : String) (answer : ProviderAnswer)
      → Refused (place_order uid req token answer) db
  unfolding place_order
  place_order-Refused uid req token answer = elim (Option-cases (lookup uid db.users)) [
    | inl missing ↦ record { error = no_such_row; ended = rw missing refl }
    | inr (u, at) ↦ elim (Bool-cases u.is_banned) [
      | inl banned ↦ record {
        error = order_error "This account is suspended";
        ended = rw (at, banned) refl;
      }
      | inr allowed ↦ elim (Option-cases u.terms_accepted_at) [
        | inl never ↦ record {
          error = order_error "Please accept the Terms of Service and Privacy Policy first";
          ended = rw (at, allowed, never) refl;
        }
        | inr (t, accepted) ↦ record {
          error = assert_orders_open-Refused.error;
          ended = rw (at, allowed, accepted, assert_orders_open-Refused.ended) refl;
        }
      ]
    ]
  ]

  request_refill-Refused :
      (order : Order) (u : User) (answer : Option String)
      → Refused (request_refill order u answer) db
  unfolding request_refill
  request_refill-Refused order u answer =
      bind-Refused db assert_refills_open _ assert_refills_open-Refused

  create_deposit-Refused :
      (limits : DepositSettings) (u : User) (amount : ℤ) (key : Option String) (token : String)
      (answer : CheckoutAnswer)
      → Refused (create_deposit limits u amount key token answer) db
  unfolding create_deposit
  create_deposit-Refused limits u amount key token answer = raise_if-Refused db u.is_banned _ _ (
      raise_if-Refused db _ _ _ (
        bind-Refused db (rethrow as_deposit_error assert_payments_open) _
          (rethrow-Refused db as_deposit_error assert_payments_open assert_payments_open-Refused)))

  -- While the platform is in maintenance or read-only, placing an order, asking for a refill and
  -- opening a deposit each raise and write nothing, whoever asks, with whatever arguments and
  -- whatever the outside answers.
  pub shut-Refused :
      (uid : ℕ) (req : Request) (answer : ProviderAnswer) (order : Order) (u : User)
      (refill : Option String) (limits : DepositSettings) (amount : ℤ) (key : Option String)
      (token : String) (checkout : CheckoutAnswer)
      → Refused (place_order uid req token answer) db
        × Refused (request_refill order u refill) db
        × Refused (create_deposit limits u amount key token checkout) db
  shut-Refused uid req answer order u refill limits amount key token checkout = (
    place_order-Refused uid req token answer,
    request_refill-Refused order u refill,
    create_deposit-Refused limits u amount key token checkout,
  )
