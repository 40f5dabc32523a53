-- ===== src/Wallet/Flows.antt =====
-- How the operations of app/wallet.py work together on one user's balances, and leave others alone.
use smmfalcron.Wallet.Rules.{once-ends, append_entry-ends, raise_if-ends}
use smmfalcron.Wallet.Effects.{
  lookup-push, lookup-push_ne, find_key-push_ne, append_entry_lem, once_lem, Meets, IsSound-Meets,
  reserve_lem, capture_lem, release_lem,
}
use smmfalcron.Prelude.{
  ℕ, ◌≡◌, ◌≢◌, refl, inl, inr, String, Bool, true, false, Option, none, some, nat_eq, string_eq,
  Bool-cases, if◌then◌else◌, ◌∙◌, sym,
}
use smmfalcron.Prelude.Int.{
  ℤ, pos, ◌+ℤ◌, ◌-ℤ◌, neg, ◌≤ℤ◌, ◌<ℤ◌, leb_ℤ, ltb_ℤ, le→ltb_ℤ, lt→ltb_ℤ, leb_ℤ→le, leb_ℤ→gt,
  int_laws, +ℤ-ℤ_cancel,
}
use smmfalcron.Table.{lookup}
use smmfalcron.Models.{Db, User, LedgerEntry, EntryType, available_paise}
use smmfalcron.Env.{Env}
use smmfalcron.Session.{Session, Outcome, returns, raises, insufficient_funds, ◌>>◌, Returned}
use smmfalcron.Wallet.{
  with_balances, Label, payment_key, find_key, ledger_entry, push, append_entry, debit, reserve,
  release, capture, run,
}
use smmfalcron.Wallet.Invariant.{IsSound}

module _ ⦃env : Env⦄ where
  -- From a sound database, a debit of a positive amount from a user of the users table, by a key
  -- that is not in the ledger yet, takes the amount from the balance exactly when the available
  -- balance covers it; otherwise it raises and writes nothing.
  pub debit_exact :
      (uid : ℕ) (u : User) (amount : ℤ) (label : Label) (given : Option String) (db : Db)
      → IsSound db
      → lookup uid db.users ≡ some u
      → pos 0 <ℤ amount
      → find_key (payment_key "debit" amount label given u) db.ledger ≡ none
      → let b = u.cached_balance_paise -ℤ amount in
        let r = u.cached_reserved_paise in
        let entry =
          ledger_entry db.now u
            (neg amount)
            EntryType.debit
            label
            (payment_key "debit" amount label given u)
            b
            r in
        debit uid amount label given db ≡ (
          if leb_ℤ amount (available_paise u)
          then (returns entry, push u b r entry db)
          else (raises insufficient_funds, db))
  unfolding debit
  debit_exact uid u amount label given db h at amt fresh =
      let m =
        IsSound-Meets uid u amount (payment_key "debit" amount label given u) db h at amt fresh in
      once_lem amount _ uid (payment_key "debit" amount label given) _ u db amt at fresh
      ∙ elim (Bool-cases (leb_ℤ amount (available_paise u))) [
        | inl enough ↦
            let e = leb_ℤ→le amount (available_paise u) enough in
            rw (enough, le→ltb_ℤ (available_paise u) amount e)
              (append_entry_lem u (neg amount) EntryType.debit label _ _ _ db m.low
                (omega (int_laws, e)))
        | inr short ↦
            rw (
              short,
              lt→ltb_ℤ (available_paise u) amount (leb_ℤ→gt amount (available_paise u) short),
            )
      ]

module _ (uid : ℕ) (u : User) (amount : ℤ) (first second : Label) (k1 k2 : String) (db : Db)
    (h : IsSound db) (at : lookup uid db.users ≡ some u) (positive : pos 0 <ℤ amount)
    (covered : amount ≤ℤ available_paise u) (distinct : k1 ≢ k2)
    (fresh1 : find_key k1 db.ledger ≡ none) (fresh2 : find_key k2 db.ledger ≡ none) where
  abbrev held : User
  held = with_balances db u u.cached_balance_paise (u.cached_reserved_paise +ℤ amount)

  abbrev reserved_entry : LedgerEntry
  reserved_entry =
      ledger_entry db.now u (pos 0) EntryType.reserve first k1 u.cached_balance_paise
        (u.cached_reserved_paise +ℤ amount)

  abbrev middle : Db
  middle = push u u.cached_balance_paise (u.cached_reserved_paise +ℤ amount) reserved_entry db

  meets : Meets uid u amount k1 db
  meets = IsSound-Meets uid u amount k1 db h at positive fresh1

  Meets-held : Meets uid held amount k2 middle
  Meets-held = record {
    at = lookup-push u _ _ reserved_entry db uid meets.own;
    own = meets.own;
    low = omega (int_laws, meets.low, positive);
    high = omega (int_laws, covered);
    positive = positive;
    fresh =
        find_key-push_ne u u.cached_balance_paise (u.cached_reserved_paise +ℤ amount) reserved_entry
          db k2 distinct
        ∙ fresh2;
  }

  in_hand : amount ≤ℤ held.cached_reserved_paise
  in_hand = omega (int_laws, meets.low)

  -- From a sound database, reserving a positive amount that is available to a user and capturing
  -- it, under two different keys that are new to the ledger, both return, and together lower the
  -- balance by the amount and leave the reserved part as it was.
  pub reserve-capture :
      let (out, after) = (reserve uid amount first k1 >> capture uid amount second k2) db in
      Returned out
      × (lookup uid after.users
          ≡ some (with_balances db u (u.cached_balance_paise -ℤ amount) u.cached_reserved_paise))
  reserve-capture =
      rw
        (
          reserve_lem uid u amount k1 db first meets covered,
          capture_lem uid held amount k2 middle second Meets-held in_hand,
        )
        (
          tt,
          lookup-push held _ _ reserved_entry middle uid meets.own
              ∙ rw (+ℤ-ℤ_cancel u.cached_reserved_paise amount),
        )

  -- From a sound database, reserving a positive amount that is available to a user and releasing
  -- it, under two different keys that are new to the ledger, both return, and together leave both
  -- balances as they were.
  pub reserve-release :
      let (out, after) = (reserve uid amount first k1 >> release uid amount second k2) db in
      Returned out
      × (lookup uid after.users
          ≡ some (with_balances db u u.cached_balance_paise u.cached_reserved_paise))
  reserve-release =
      rw
        (
          reserve_lem uid u amount k1 db first meets covered,
          release_lem uid held amount k2 middle second Meets-held in_hand,
        )
        (
          tt,
          lookup-push held _ _ reserved_entry middle uid meets.own
              ∙ rw (+ℤ-ℤ_cancel u.cached_reserved_paise amount),
        )

module _ (other : ℕ) where
  abbrev Spares : Db → Outcome LedgerEntry → Db → Type 0
  Spares db _ after = lookup other after.users ≡ lookup other db.users

  append_entry-Spares :
      (uid : ℕ) (u : User) (db : Db)
      → uid ≢ other
      → IsSound db
      → lookup uid db.users ≡ some u
      → (amount : ℤ) (kind : EntryType) (label : Label) (key : String) (b r : ℤ)
      → lookup other (append_entry u amount kind label key b r db).1.users ≡ lookup other db.users
  append_entry-Spares uid u db ne h at amount kind label key b r =
      append_entry-ends (Spares db) u amount kind label key b r db (λ _. refl)
        λ _ _.
          lookup-push_ne u b r (ledger_entry db.now u amount kind label key b r) db other
            (λ e. ne (sym (h.wallets uid u at).own_row ∙ e))

  if-Spares :
      (c : Bool) (m n : Session LedgerEntry) (db : Db)
      → lookup other (m db).1.users ≡ lookup other db.users
      → lookup other (n db).1.users ≡ lookup other db.users
      → lookup other ((if c then m else n) db).1.users ≡ lookup other db.users
  if-Spares true m n db hm hn = hm
  if-Spares false m n db hm hn = hn

  module _ ⦃env : Env⦄ where
    -- From a sound database a wallet operation on one user changes no other user's row.
    pub run-others :
        (kind : EntryType) (uid : ℕ) (amount : ℤ) (label : Label) (key : String) (db : Db)
        → IsSound db
        → uid ≢ other
        → lookup other (run kind uid amount label key db).1.users ≡ lookup other db.users
    unfolding run
    run-others EntryType.credit uid amount label key db h ne =
        once-ends (Spares db) amount _ uid _ _ db (λ _. refl) (λ _ _ _ _ _. refl)
          λ u _ at _. append_entry-Spares uid u db ne h at _ _ label _ _ _
    run-others EntryType.debit uid amount label key db h ne =
        once-ends (Spares db) amount _ uid _ _ db (λ _. refl) (λ _ _ _ _ _. refl)
          λ u _ at _.
            raise_if-ends (Spares db) (ltb_ℤ (available_paise u) amount) _ _ db (λ _. refl)
              λ _. append_entry-Spares uid u db ne h at _ _ label _ _ _
    run-others EntryType.reserve uid amount label key db h ne =
        once-ends (Spares db) amount _ uid _ _ db (λ _. refl) (λ _ _ _ _ _. refl)
          λ u _ at _.
            raise_if-ends (Spares db) (ltb_ℤ (available_paise u) amount) _ _ db (λ _. refl)
              λ _. append_entry-Spares uid u db ne h at _ _ label _ _ _
    run-others EntryType.release uid amount label key db h ne =
        once-ends (Spares db) amount _ uid _ _ db (λ _. refl) (λ _ _ _ _ _. refl)
          λ u _ at _.
            let spared =
              append_entry-Spares uid u db ne h at (pos 0) EntryType.release label key
                u.cached_balance_paise in
            if-Spares (ltb_ℤ u.cached_reserved_paise amount) _ _ db
              (if-Spares (leb_ℤ u.cached_reserved_paise (pos 0)) _ _ db (spared _) (spared _))
              (spared _)
    run-others EntryType.capture uid amount label key db h ne =
        once-ends (Spares db) amount _ uid _ _ db (λ _. refl) (λ _ _ _ _ _. refl)
          λ u _ at _.
            raise_if-ends (Spares db) (ltb_ℤ u.cached_reserved_paise amount) _ _ db (λ _. refl)
              λ _. append_entry-Spares uid u db ne h at _ _ label _ _ _
