-- ===== src/Wallet/Invariant.antt =====
-- What holds of the wallet tables of app/wallet.py between two operations: each user's cached
-- balances are in order and agree with the ledger, and no key is used twice.
use smmfalcron.Prelude.{
  ℕ, ◌≡◌, refl, inl, inr, String, Bool, true, false, Option, none, some, List, [], ◌∷◌, arith, ◌==◌,
  nat_eq, string_eq, if◌then◌else◌, Bool-cases, ==_refl, sym, ap, ◌∙◌,
}
use smmfalcron.Prelude.Int.{ℤ, pos, ◌+ℤ◌, ◌≤ℤ◌, +ℤ_comm, +ℤ_zero, +ℤ_neg, ltb_ℤ, leb_ℤ}
use smmfalcron.Table.{lookup, lookup-put}
use smmfalcron.Models.{Db, User, LedgerEntry, EntryType, available_paise}
use smmfalcron.Env.{Env}
use smmfalcron.Session.{Session, Outcome}
use smmfalcron.Wallet.Rules.{raise_if-ends, append_entry-ends, once-ends}
use smmfalcron.Wallet.{
  ledger_entry, with_balances, push, Label, find_key, append_entry, credit, run, debit, reserve,
  release, capture,
}

-- The sum of the amounts of a user's entries.
abbrev pub ledger_sum : ℕ → List LedgerEntry → ℤ
ledger_sum uid [] = pos 0
ledger_sum uid (e ∷ es) =
    let rest = ledger_sum uid es in if e.user_id == uid then e.amount_paise +ℤ rest else rest

-- No two entries have one idempotency key.
abbrev pub HasUniqueKeys : List LedgerEntry → Type 0
HasUniqueKeys [] = Unit
HasUniqueKeys (e ∷ es) = (find_key e.idempotency_key es ≡ none) × HasUniqueKeys es

-- The reserved part is within the balance, and the balance is what the ledger adds up to.
pub record IsReconciled (uid : ℕ) (u : User) (es : List LedgerEntry) : Type 0 where
  pub own_row : u.telegram_id ≡ uid
  pub reserved_nonneg : pos 0 ≤ℤ u.cached_reserved_paise
  pub reserved_le : u.cached_reserved_paise ≤ℤ u.cached_balance_paise
  pub balanced : u.cached_balance_paise ≡ ledger_sum uid es

pub record IsSound (db : Db) : Type 0 where
  pub wallets : (uid : ℕ) (u : User) → lookup uid db.users ≡ some u → IsReconciled uid u db.ledger
  pub unique : HasUniqueKeys db.ledger

module _ (u : User) (b r : ℤ) (entry : LedgerEntry) (db : Db) (h : IsSound db)
    (at : lookup u.telegram_id db.users ≡ some u) (own : entry.user_id ≡ u.telegram_id)
    (eq : b ≡ u.cached_balance_paise +ℤ entry.amount_paise) (low : pos 0 ≤ℤ r) (high : r ≤ℤ b) where
  ledger_sum-push : b ≡ ledger_sum u.telegram_id (entry ∷ db.ledger)
  ledger_sum-push =
      let before : IsReconciled u.telegram_id u db.ledger = h.wallets u.telegram_id u at in
      rw (own, ==_refl u.telegram_id)
        (eq ∙ ap (λ z. z +ℤ entry.amount_paise) before.balanced ∙ +ℤ_comm _ _)

  push-own : IsReconciled u.telegram_id (with_balances db u b r) (entry ∷ db.ledger)
  push-own = record {
    own_row = refl;
    reserved_nonneg = low;
    reserved_le = high;
    balanced = ledger_sum-push;
  }

  push-wallets :
      (uid : ℕ) (v : User)
      → (if u.telegram_id == uid then some (with_balances db u b r) else lookup uid db.users)
        ≡ some v
      → IsReconciled uid v (entry ∷ db.ledger)
  push-wallets uid v e = elim (Bool-cases (u.telegram_id == uid)) [
    | inl same ↦ ground (arith, push-own)
    | inr other ↦ ground (arith, h.wallets uid v)
  ]

  pub push-IsSound : find_key entry.idempotency_key db.ledger ≡ none → IsSound (push u b r entry db)
  push-IsSound fresh = record {
    wallets = λ uid v e. push-wallets uid v (sym (lookup-put u.telegram_id uid _ db.users) ∙ e);
    unique = (fresh, h.unique);
  }

if-ends :
    (c : Bool) (m n : Session LedgerEntry) {db : Db}
    → IsSound (m db).1
    → IsSound (n db).1
    → IsSound ((if c then m else n) db).1
if-ends true m n hm hn = hm
if-ends false m n hm hn = hn

abbrev Sound : Outcome LedgerEntry → Db → Type 0
Sound _ db = IsSound db

-- An entry that keeps the books: what `_append` is called with.
append_entry-IsSound :
    (u : User) (amount : ℤ) (kind : EntryType) (label : Label) (key : String) (b r : ℤ) (db : Db)
    → IsSound db
    → (uid : ℕ) → lookup uid db.users ≡ some u
    → find_key key db.ledger ≡ none
    → b ≡ u.cached_balance_paise +ℤ amount
    → IsSound (append_entry u amount kind label key b r db).1
append_entry-IsSound u amount kind label key b r db h uid at fresh eq =
    append_entry-ends Sound u amount kind label key b r db (λ _. h)
      λ low high.
        push-IsSound u b r (ledger_entry db.now u amount kind label key b r) db h
          (ap (λ k. lookup k db.users) (h.wallets uid u at).own_row ∙ at) refl eq low high fresh

module _ ⦃env : Env⦄ where
  pub credit-IsSound :
      (uid : ℕ) (amount : ℤ) (label : Label) (given : Option String) (db : Db)
      → IsSound db
      → IsSound (credit uid amount label given db).1
  unfolding credit
  credit-IsSound uid amount label given db h =
      once-ends Sound amount _ uid _ _ db (λ _. h) (λ _ _ _ _ _. h)
        λ u _ at fresh. append_entry-IsSound u _ _ label _ _ _ db h uid at fresh refl

  pub debit-IsSound :
      (uid : ℕ) (amount : ℤ) (label : Label) (given : Option String) (db : Db)
      → IsSound db
      → IsSound (debit uid amount label given db).1
  unfolding debit
  debit-IsSound uid amount label given db h =
      once-ends Sound amount _ uid _ _ db (λ _. h) (λ _ _ _ _ _. h)
        λ u _ at fresh.
          raise_if-ends Sound (ltb_ℤ (available_paise u) amount) _ _ db (λ _. h)
            λ _. append_entry-IsSound u _ _ label _ _ _ db h uid at fresh (+ℤ_neg _ _)

pub reserve-IsSound :
    (uid : ℕ) (amount : ℤ) (label : Label) (given : String) (db : Db)
    → IsSound db
    → IsSound (reserve uid amount label given db).1
unfolding reserve
reserve-IsSound uid amount label given db h =
    once-ends Sound amount _ uid _ _ db (λ _. h) (λ _ _ _ _ _. h)
      λ u _ at fresh.
        raise_if-ends Sound (ltb_ℤ (available_paise u) amount) _ _ db (λ _. h)
          λ _. append_entry-IsSound u _ _ label _ _ _ db h uid at fresh (+ℤ_zero _)

pub release-IsSound :
    (uid : ℕ) (amount : ℤ) (label : Label) (given : String) (db : Db)
    → IsSound db
    → IsSound (release uid amount label given db).1
unfolding release
release-IsSound uid amount label given db h =
    once-ends Sound amount _ uid _ _ db (λ _. h) (λ _ _ _ _ _. h)
      λ u _ at fresh.
        let kept = λ (r : ℤ).
          append_entry-IsSound u (pos 0) EntryType.release label given u.cached_balance_paise r db h
            uid at fresh (+ℤ_zero _) in
        if-ends (ltb_ℤ u.cached_reserved_paise amount) _ _
          (if-ends (leb_ℤ u.cached_reserved_paise (pos 0)) _ _ (kept _) (kept _)) (kept _)

pub capture-IsSound :
    (uid : ℕ) (amount : ℤ) (label : Label) (given : String) (db : Db)
    → IsSound db
    → IsSound (capture uid amount label given db).1
unfolding capture
capture-IsSound uid amount label given db h =
    once-ends Sound amount _ uid _ _ db (λ _. h) (λ _ _ _ _ _. h)
      λ u _ at fresh.
        raise_if-ends Sound (ltb_ℤ u.cached_reserved_paise amount) _ _ db (λ _. h)
          λ _. append_entry-IsSound u _ _ label _ _ _ db h uid at fresh (+ℤ_neg _ _)

module _ ⦃env : Env⦄ where
  -- From a sound database each of the five wallet operations, whether it returns or raises, leads
  -- to a sound one: every user's reserved part is between zero and the balance, every balance is
  -- the sum of the user's ledger entries, and no two entries have one key.
  pub run-IsSound :
      (kind : EntryType) (uid : ℕ) (amount : ℤ) (label : Label) (key : String) (db : Db)
      → IsSound db
      → IsSound (run kind uid amount label key db).1
  unfolding run
  run-IsSound EntryType.credit uid amount label key db h =
      credit-IsSound uid amount label (some key) db h
  run-IsSound EntryType.debit uid amount label key db h =
      debit-IsSound uid amount label (some key) db h
  run-IsSound EntryType.reserve uid amount label key db h =
      reserve-IsSound uid amount label key db h
  run-IsSound EntryType.release uid amount label key db h =
      release-IsSound uid amount label key db h
  run-IsSound EntryType.capture uid amount label key db h =
      capture-IsSound uid amount label key db h
