-- ===== src/Wallet/Rules.antt =====
-- Rules by which the operations of app/wallet.py are walked through: one for each way on.
use smmfalcron.Prelude.{
  ℕ, ◌≡◌, refl, inl, inr, String, Bool, true, false, none, some, nat_eq, string_eq, Option-cases,
  Bool-cases,
}
use smmfalcron.Prelude.Int.{ℤ, pos, ◌≤ℤ◌, ◌<ℤ◌, ltb_ℤ, leb_ℤ, leb_ℤ→gt, ltb_ℤ→ge}
use smmfalcron.Table.{lookup}
use smmfalcron.Models.{Db, User, LedgerEntry, EntryType}
use smmfalcron.Session.{Session, Outcome, returns, raises, Error, ◌>>◌, raise_if}
use smmfalcron.Wallet.{Label, find_key, ledger_entry, push, append_entry, once}

module _ (P : Outcome LedgerEntry → Db → Type 0) where
  pub raise_if-ends :
      (c : Bool) (e : Error) (k : Session LedgerEntry) (db : Db)
      → (c ≡ true → P (raises e) db)
      → (c ≡ false → P (k db).0 (k db).1)
      → P ((raise_if c e >> k) db).0 ((raise_if c e >> k) db).1
  raise_if-ends true e k db bad good = bad refl
  raise_if-ends false e k db bad good = good refl

  -- `_append` refuses, or pushes the entry with balances in order.
  pub append_entry-ends :
      (u : User) (amount : ℤ) (kind : EntryType) (label : Label) (key : String) (b r : ℤ) (db : Db)
      → ((e : Error) → P (raises e) db)
      → (pos 0 ≤ℤ r
          → r ≤ℤ b
          → let entry = ledger_entry db.now u amount kind label key b r in
            P (returns entry) (push u b r entry db))
      → P
          (append_entry u amount kind label key b r db).0
          (append_entry u amount kind label key b r db).1
  unfolding append_entry
  append_entry-ends u amount kind label key b r db refused pushed =
      elim (Bool-cases (ltb_ℤ b (pos 0))) [
        | inl below ↦ rw below (refused _)
        | inr above ↦ elim (Bool-cases (ltb_ℤ r (pos 0))) [
          | inl below ↦ rw (above, below) (refused _)
          | inr nonneg ↦ elim (Bool-cases (ltb_ℤ b r)) [
            | inl short ↦ rw (above, nonneg, short) (refused _)
            | inr covered ↦
                rw (above, nonneg, covered)
                  (pushed (ltb_ℤ→ge r (pos 0) nonneg) (ltb_ℤ→ge b r covered))
          ]
        ]
      ]

  pub once-ends :
      (amount : ℤ) (complaint : String) (uid : ℕ) (key_for : User → String)
      (body : User → String → Session LedgerEntry) (db : Db)
      → ((e : Error) → P (raises e) db)
      → ((u : User) (x : LedgerEntry)
          → pos 0 <ℤ amount
          → lookup uid db.users ≡ some u
          → find_key (key_for u) db.ledger ≡ some x
          → P (returns x) db)
      → ((u : User)
          → pos 0 <ℤ amount
          → lookup uid db.users ≡ some u
          → find_key (key_for u) db.ledger ≡ none
          → P (body u (key_for u) db).0 (body u (key_for u) db).1)
      → P
          (once amount complaint uid key_for body db).0
          (once amount complaint uid key_for body db).1
  unfolding once
  once-ends amount complaint uid key_for body db refused again fresh =
      elim (Bool-cases (leb_ℤ amount (pos 0))) [
        | inl bad ↦ rw bad (refused _)
        | inr good ↦ elim (Option-cases (lookup uid db.users)) [
          | inl missing ↦ rw (good, missing) (refused _)
          | inr (u, at) ↦ elim (Option-cases (find_key (key_for u) db.ledger)) [
            | inl new ↦ rw (good, at, new) (fresh u (leb_ℤ→gt amount (pos 0) good) at new)
            | inr (x, old) ↦ rw (good, at, old) (again u x (leb_ℤ→gt amount (pos 0) good) at old)
          ]
        ]
      ]
