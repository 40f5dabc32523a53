-- ===== src/Wallet/Stable.antt =====
-- What a property of the database must withstand so that every operation of the program keeps it: the
-- movements of money of app/wallet.py, and writes to the tables that hold no money.
use mathlib.Core.Path.{subst}
use smmfalcron.Prelude.{ℕ, ◌≡◌, String, Option, sym, ap, ◌∙◌, nat_eq}
use smmfalcron.Prelude.Int.{ℤ}
use smmfalcron.Table.{lookup}
use smmfalcron.Models.{Db}
use smmfalcron.Env.{Env}
use smmfalcron.Session.{write}
use smmfalcron.Session.Keeps.{Keeps}
use smmfalcron.Wallet.Invariant.{
  IsSound, IsReconciled, HasUniqueKeys, credit-IsSound, debit-IsSound, reserve-IsSound,
  release-IsSound, capture-IsSound,
}
use smmfalcron.Wallet.{Label, credit, debit, reserve, release, capture}

pub record Stable ⦃env : Env⦄ (I : Db → Type 0) : Type 0 where
  pub credits :
      (uid : ℕ) (amount : ℤ) (label : Label) (key : Option String)
      → Keeps I (credit uid amount label key)
  pub debits :
      (uid : ℕ) (amount : ℤ) (label : Label) (key : Option String)
      → Keeps I (debit uid amount label key)
  pub reserves :
      (uid : ℕ) (amount : ℤ) (label : Label) (key : String) → Keeps I (reserve uid amount label key)
  pub releases :
      (uid : ℕ) (amount : ℤ) (label : Label) (key : String) → Keeps I (release uid amount label key)
  pub captures :
      (uid : ℕ) (amount : ℤ) (label : Label) (key : String) → Keeps I (capture uid amount label key)
  -- What leaves the users, the ledger and the payments as they are.
  pub elsewhere :
      (db after : Db)
      → after.users ≡ db.users
      → after.ledger ≡ db.ledger
      → after.payments ≡ db.payments
      → I db
      → I after

module _ ⦃env : Env⦄ {I : Db → Type 0} (s : Stable I) where
  pub write-Keeps :
      (f : Db → Db)
      → ((db : Db) → (f db).users ≡ db.users)
      → ((db : Db) → (f db).ledger ≡ db.ledger)
      → ((db : Db) → (f db).payments ≡ db.payments)
      → Keeps I (write f)
  write-Keeps f users ledger payments = record {
    kept = λ db. s.elsewhere db (f db) (users db) (ledger db) (payments db);
  }

-- Soundness is about the users and the ledger only.
pub books-IsSound :
    (db after : Db) → after.users ≡ db.users → after.ledger ≡ db.ledger → IsSound db → IsSound after
books-IsSound db after users ledger h = record {
  wallets = λ uid u e.
      subst (IsReconciled uid u) (sym ledger)
        (h.wallets uid u (ap (λ t. lookup uid t) (sym users) ∙ e));
  unique = subst HasUniqueKeys (sym ledger) h.unique;
}

module _ ⦃env : Env⦄ where
  pub IsSound-Stable : Stable IsSound
  IsSound-Stable = record {
    credits = λ uid amount label key. record { kept = credit-IsSound uid amount label key };
    debits = λ uid amount label key. record { kept = debit-IsSound uid amount label key };
    reserves = λ uid amount label key. record { kept = reserve-IsSound uid amount label key };
    releases = λ uid amount label key. record { kept = release-IsSound uid amount label key };
    captures = λ uid amount label key. record { kept = capture-IsSound uid amount label key };
    elsewhere = λ db after users ledger _. books-IsSound db after users ledger;
  }
