-- ===== src/Wallet/Pushes.antt =====
-- Properties that withstand any entry of the ledger: the operations of app/wallet.py keep them. And
-- what a credit leaves in the ledger.
use mathlib.Core.Path.{subst}
use smmfalcron.Prelude.{
  ℕ, ◌≡◌, ◌≢◌, refl, String, Bool, true, false, Option, some, nat_eq, string_eq, if◌then◌else◌,
  ne_==_false,
}
use smmfalcron.Prelude.Int.{ℤ, pos, leb_ℤ, ltb_ℤ}
use smmfalcron.Models.{Db, User, LedgerEntry, EntryType, available_paise}
use smmfalcron.Env.{Env}
use smmfalcron.Session.{Session, Outcome, returns, raises, and_then, ◌>>=◌}
use smmfalcron.Session.Keeps.{Keeps}
use smmfalcron.Wallet.Rules.{raise_if-ends, append_entry-ends, once-ends}
use smmfalcron.Wallet.Stable.{Stable}
use smmfalcron.Security.{key_or}
use smmfalcron.Wallet.{
  Label, append_entry, push, find_key, once, credit, debit, reserve, release, capture,
}

pub record Pushes (I : Db → Type 0) : Type 0 where
  pub pushed : (u : User) (b r : ℤ) (entry : LedgerEntry) (db : Db) → I db → I (push u b r entry db)
  pub aside :
      (db after : Db)
      → after.users ≡ db.users
      → after.ledger ≡ db.ledger
      → after.payments ≡ db.payments
      → I db
      → I after

module _ {I : Db → Type 0}
    (pushed : (u : User) (b r : ℤ) (entry : LedgerEntry) (db : Db)
      → I db
      → I (push u b r entry db)) where
  abbrev Any : Outcome LedgerEntry → Db → Type 0
  Any _ db = I db

  if-any :
      (c : Bool) (m n : Session LedgerEntry) {db : Db}
      → I (m db).1
      → I (n db).1
      → I ((if c then m else n) db).1
  if-any true m n hm hn = hm
  if-any false m n hm hn = hn

  once-any :
      (amount : ℤ) (complaint : String) (uid : ℕ) (key_for : User → String)
      (body : User → String → Session LedgerEntry)
      → ((u : User) (key : String) → Keeps I (body u key))
      → Keeps I (once amount complaint uid key_for body)
  once-any amount complaint uid key_for body bodies = record {
    kept = λ db h.
        once-ends Any amount complaint uid key_for body db (λ _. h) (λ _ _ _ _ _. h)
          (λ u _ _ _. (bodies u (key_for u)).kept db h);
  }

  append-any :
      (u : User) (amount : ℤ) (kind : EntryType) (label : Label) (key : String) (b r : ℤ) {db : Db}
      → I db
      → I (append_entry u amount kind label key b r db).1
  append-any u amount kind label key b r {db} h =
      append_entry-ends Any u amount kind label key b r db (λ _. h) (λ _ _. pushed u b r _ db h)

  module _ ⦃env : Env⦄ where
    pub credit-any :
        (uid : ℕ) (amount : ℤ) (label : Label) (given : Option String)
        → Keeps I (credit uid amount label given)
    unfolding credit
    credit-any uid amount label given =
        once-any amount _ uid _ _
          λ u key. record { kept = λ db h. append-any u _ EntryType.credit label key _ _ h }

module _ {I : Db → Type 0} (p : Pushes I) where
  module _ ⦃env : Env⦄ where
    pub Pushes-Stable : Stable I
    unfolding debit reserve release capture
    Pushes-Stable = record {
      credits = credit-any p.pushed;
      debits = λ uid amount label given. once-any p.pushed amount _ uid _ _ λ u key. record {
        kept = λ db h.
            raise_if-ends (Any p.pushed) (ltb_ℤ (available_paise u) amount) _ _ db (λ _. h)
              (λ _. append-any p.pushed u _ EntryType.debit label key _ _ h);
      };
      reserves = λ uid amount label given. once-any p.pushed amount _ uid _ _ λ u key. record {
        kept = λ db h.
            raise_if-ends (Any p.pushed) (ltb_ℤ (available_paise u) amount) _ _ db (λ _. h)
              (λ _. append-any p.pushed u _ EntryType.reserve label key _ _ h);
      };
      releases = λ uid amount label given. once-any p.pushed amount _ uid _ _ λ u key. record {
        kept = λ db h.
            let ends = λ (r : ℤ).
              append-any p.pushed u (pos 0) EntryType.release label key u.cached_balance_paise r
                h in
            if-any p.pushed (ltb_ℤ u.cached_reserved_paise amount) _ _
              (if-any p.pushed (leb_ℤ u.cached_reserved_paise (pos 0)) _ _ (ends _) (ends _))
              (ends _);
      };
      captures = λ uid amount label given. once-any p.pushed amount _ uid _ _ λ u key. record {
        kept = λ db h.
            raise_if-ends (Any p.pushed) (ltb_ℤ u.cached_reserved_paise amount) _ _ db (λ _. h)
              (λ _. append-any p.pushed u _ EntryType.capture label key _ _ h);
      };
      elsewhere = p.aside;
    }

pub key_or-given : (key other : String) → key ≢ "" → key_or (some key) other ≡ key
unfolding key_or
key_or-given key other full = rw (ne_==_false key "" full) refl

-- The state after a credit, where `J` holds once its key is in the ledger.
module _ ⦃env : Env⦄ (I J : Db → Type 0) (key : String) where
  abbrev Credited : Outcome LedgerEntry → Db → Type 0
  Credited (returns x) db = J db
  Credited (raises e) db = I db

  -- A key that is not empty is the one that the credit uses.
  credit-Credited :
      (uid : ℕ) (amount : ℤ) (label : Label) (db : Db)
      → key ≢ ""
      → I db
      → ((x : LedgerEntry) → find_key key db.ledger ≡ some x → J db)
      → ((u : User) (b r : ℤ) (entry : LedgerEntry)
          → entry.idempotency_key ≡ key
          → J (push u b r entry db))
      → Credited (credit uid amount label (some key) db).0 (credit uid amount label (some key) db).1
  unfolding credit
  credit-Credited uid amount label db full h again new =
      once-ends Credited amount _ uid _ _ db (λ _. h)
        (λ u x _ _ found.
          again x (subst (λ k. find_key k db.ledger ≡ some x) (key_or-given key _ full) found))
        (λ u _ _ _.
          append_entry-ends Credited u amount EntryType.credit label _ _ _ db (λ _. h)
            (λ _ _. new u _ _ _ (key_or-given key _ full)))

  Credited-and_then :
      {B : Type 0} (k : LedgerEntry → Session B) (out : Outcome LedgerEntry) (db : Db)
      → Credited out db
      → ((x : LedgerEntry) (after : Db) → J after → I (k x after).1)
      → I (and_then out k db).1
  Credited-and_then k (returns x) db h rest = rest x db h
  Credited-and_then k (raises e) db h rest = h

  -- What comes after a credit may count on its key.
  pub credit-then :
      {B : Type 0} (k : LedgerEntry → Session B) (uid : ℕ) (amount : ℤ) (label : Label) (db : Db)
      → key ≢ ""
      → I db
      → ((x : LedgerEntry) → find_key key db.ledger ≡ some x → J db)
      → ((u : User) (b r : ℤ) (entry : LedgerEntry)
          → entry.idempotency_key ≡ key
          → J (push u b r entry db))
      → ((x : LedgerEntry) (after : Db) → J after → I (k x after).1)
      → I ((credit uid amount label (some key) >>= k) db).1
  credit-then k uid amount label db full h again new rest =
      Credited-and_then k (credit uid amount label (some key) db).0 _
        (credit-Credited uid amount label db full h again new) rest
