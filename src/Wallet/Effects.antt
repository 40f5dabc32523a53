-- ===== src/Wallet/Effects.antt =====
-- What the operations of app/wallet.py do to the balances when their guards pass.
use smmfalcron.Prelude.{
  ℕ, ◌≡◌, ◌≢◌, inl, inr, String, Option, none, some, arith, nat_eq, string_eq, Bool-cases,
  nat_eqb_iff, ne_==_false, ◌∙◌,
}
use smmfalcron.Prelude.Int.{
  ℤ, pos, ◌+ℤ◌, ◌-ℤ◌, neg, ◌≤ℤ◌, ◌<ℤ◌, leb_ℤ, lt→leb_ℤ, le→ltb_ℤ, lt→ltb_ℤ, int_laws, -ℤ_self,
}
use smmfalcron.Table.{lookup, lookup-put}
use smmfalcron.Models.{Db, User, LedgerEntry, EntryType, available_paise}
use smmfalcron.Env.{Env}
use smmfalcron.Session.{Session, returns, raises, insufficient_funds}
use smmfalcron.Wallet.{
  with_balances, Label, payment_key, find_key, ledger_entry, push, append_entry, once, credit,
  reserve, release, capture,
}
use smmfalcron.Wallet.Invariant.{IsSound}

-- The row that a user is left with, seen through the table.
pub lookup-push :
    (u : User) (b r : ℤ) (entry : LedgerEntry) (db : Db) (uid : ℕ)
    → u.telegram_id ≡ uid
    → lookup uid (push u b r entry db).users ≡ some (with_balances db u b r)
lookup-push u b r entry db uid own =
    lookup-put u.telegram_id uid (with_balances db u b r) db.users
    ∙ rw ((nat_eqb_iff u.telegram_id uid).1 own)

pub lookup-push_ne :
    (u : User) (b r : ℤ) (entry : LedgerEntry) (db : Db) (other : ℕ)
    → u.telegram_id ≢ other
    → lookup other (push u b r entry db).users ≡ lookup other db.users
lookup-push_ne u b r entry db other ne =
    lookup-put u.telegram_id other (with_balances db u b r) db.users
    ∙ rw (ne_==_false u.telegram_id other ne)

pub find_key-push_ne :
    (u : User) (b r : ℤ) (entry : LedgerEntry) (db : Db) (key : String)
    → entry.idempotency_key ≢ key
    → find_key key (push u b r entry db).ledger ≡ find_key key db.ledger
unfolding find_key
find_key-push_ne u b r entry db key ne = rw (ne_==_false entry.idempotency_key key ne)

pub append_entry_lem :
    (u : User) (amount : ℤ) (kind : EntryType) (label : Label) (key : String) (b r : ℤ) (db : Db)
    → pos 0 ≤ℤ r
    → r ≤ℤ b
    → let entry = ledger_entry db.now u amount kind label key b r in
      append_entry u amount kind label key b r db ≡ (returns entry, push u b r entry db)
unfolding append_entry
append_entry_lem u amount kind label key b r db low high =
    rw (le→ltb_ℤ b (pos 0) (omega arith), le→ltb_ℤ r (pos 0) low, le→ltb_ℤ b r high)

pub once_lem :
    (amount : ℤ) (complaint : String) (uid : ℕ) (key_for : User → String)
    (body : User → String → Session LedgerEntry) (u : User) (db : Db)
    → pos 0 <ℤ amount
    → lookup uid db.users ≡ some u
    → find_key (key_for u) db.ledger ≡ none
    → once amount complaint uid key_for body db ≡ body u (key_for u) db
unfolding once
once_lem amount complaint uid key_for body u db amt at fresh =
    rw (lt→leb_ℤ amount (pos 0) amt, at, fresh)

-- What an operation meets: the user's row, in order, a positive amount and a key of its own.
pub record Meets (uid : ℕ) (u : User) (amount : ℤ) (key : String) (db : Db) : Type 0 where
  pub at : lookup uid db.users ≡ some u
  pub own : u.telegram_id ≡ uid
  pub low : pos 0 ≤ℤ u.cached_reserved_paise
  pub high : u.cached_reserved_paise ≤ℤ u.cached_balance_paise
  pub positive : pos 0 <ℤ amount
  pub fresh : find_key key db.ledger ≡ none

pub IsSound-Meets :
    (uid : ℕ) (u : User) (amount : ℤ) (key : String) (db : Db)
    → IsSound db
    → lookup uid db.users ≡ some u
    → pos 0 <ℤ amount
    → find_key key db.ledger ≡ none
    → Meets uid u amount key db
IsSound-Meets uid u amount key db h at amt fresh = record {
  at = at;
  own = (h.wallets uid u at).own_row;
  low = (h.wallets uid u at).reserved_nonneg;
  high = (h.wallets uid u at).reserved_le;
  positive = amt;
  fresh = fresh;
}

module _ (uid : ℕ) (u : User) (amount : ℤ) (key : String) (db : Db) (label : Label)
    (m : Meets uid u amount key db) where
  pub reserve_lem :
      amount ≤ℤ available_paise u
      → let r = u.cached_reserved_paise +ℤ amount in
        let entry =
          ledger_entry db.now u (pos 0) EntryType.reserve label key u.cached_balance_paise r in
        reserve uid amount label key db ≡ (returns entry, push u u.cached_balance_paise r entry db)
  unfolding reserve
  reserve_lem enough =
      once_lem amount _ uid (λ _. key) _ u db m.positive m.at m.fresh
      ∙ rw (le→ltb_ℤ (available_paise u) amount enough) (
          append_entry_lem u (pos 0) EntryType.reserve label key _ _ db
            (omega (int_laws, m.low, m.positive)) (omega (int_laws, enough)))

  pub reserve_short :
      available_paise u <ℤ amount
      → reserve uid amount label key db ≡ (raises insufficient_funds, db)
  unfolding reserve
  reserve_short short =
      once_lem amount _ uid (λ _. key) _ u db m.positive m.at m.fresh
      ∙ rw (lt→ltb_ℤ (available_paise u) amount short)

  pub capture_lem :
      amount ≤ℤ u.cached_reserved_paise
      → let b = u.cached_balance_paise -ℤ amount in
        let r = u.cached_reserved_paise -ℤ amount in
        let entry = ledger_entry db.now u (neg amount) EntryType.capture label key b r in
        capture uid amount label key db ≡ (returns entry, push u b r entry db)
  unfolding capture
  capture_lem enough =
      once_lem amount _ uid (λ _. key) _ u db m.positive m.at m.fresh
      ∙ rw (le→ltb_ℤ u.cached_reserved_paise amount enough) (
          append_entry_lem u (neg amount) EntryType.capture label key _ _ db
            (omega (int_laws, enough)) (omega (int_laws, m.high)))

  pub release_lem :
      amount ≤ℤ u.cached_reserved_paise
      → let r = u.cached_reserved_paise -ℤ amount in
        let entry =
          ledger_entry db.now u (pos 0) EntryType.release label key u.cached_balance_paise r in
        release uid amount label key db ≡ (returns entry, push u u.cached_balance_paise r entry db)
  unfolding release
  release_lem enough =
      once_lem amount _ uid (λ _. key) _ u db m.positive m.at m.fresh
      ∙ rw (le→ltb_ℤ u.cached_reserved_paise amount enough) (
          append_entry_lem u (pos 0) EntryType.release label key _ _ db (omega (int_laws, enough))
            (omega (int_laws, m.high, m.positive)))

  -- A release of more than is reserved empties the reserve.
  pub release_clamp :
      u.cached_reserved_paise <ℤ amount
      → let entry =
          ledger_entry db.now u
            (pos 0)
            EntryType.release
            label
            key
            u.cached_balance_paise
            (pos 0) in
        release uid amount label key db
        ≡ (returns entry, push u u.cached_balance_paise (pos 0) entry db)
  unfolding release
  release_clamp less =
      once_lem amount _ uid (λ _. key) _ u db m.positive m.at m.fresh
      ∙ rw (lt→ltb_ℤ u.cached_reserved_paise amount less)
          (elim (Bool-cases (leb_ℤ u.cached_reserved_paise (pos 0))) [
            | inl none_held ↦ rw none_held emptied
            | inr some_held ↦ rw (some_held, -ℤ_self u.cached_reserved_paise) emptied
          ])
    where
      emptied :
          let entry =
            ledger_entry db.now u
              (pos 0)
              EntryType.release
              label
              key
              u.cached_balance_paise
              (pos 0) in
          append_entry u (pos 0) EntryType.release label key u.cached_balance_paise (pos 0) db
          ≡ (returns entry, push u u.cached_balance_paise (pos 0) entry db)
      emptied =
          append_entry_lem u (pos 0) EntryType.release label key _ _ db (omega arith)
            (omega (int_laws, m.low, m.high))

module _ ⦃env : Env⦄ where
  pub credit_lem :
      (uid : ℕ) (u : User) (amount : ℤ) (label : Label) (given : Option String) (db : Db)
      → Meets uid u amount (payment_key "credit" amount label given u) db
      → let b = u.cached_balance_paise +ℤ amount in
        let r = u.cached_reserved_paise in
        let entry =
          ledger_entry db.now u amount EntryType.credit label
            (payment_key "credit" amount label given u)
            b
            r in
        credit uid amount label given db ≡ (returns entry, push u b r entry db)
  unfolding credit
  credit_lem uid u amount label given db m =
      once_lem amount _ uid (payment_key "credit" amount label given) _ u db m.positive m.at m.fresh
      ∙ append_entry_lem u amount EntryType.credit label _ _ _ db m.low
          (omega (int_laws, m.high, m.positive))
