-- ===== src/Wallet.antt =====
-- app/wallet.py: the append-only ledger, with idempotent credit, debit, reserve, release and
-- capture. A user is named by `telegram_id`; `lock_user` re-reads the row under the lock.
pub mod Rules
pub mod Invariant
pub mod Replay
pub mod Effects
pub mod Flows
pub mod Stable
pub mod Pushes
use smmfalcron.Prelude.{
  string_eq, nat_eq, ℕ, String, Bool, Option, none, some, List, [], ◌∷◌, ◌||◌, ◌==◌, if◌then◌else◌,
  truncate, Option-cases, select, take, drop,
}
use smmfalcron.Prelude.Int.{ℤ, pos, ◌+ℤ◌, ◌-ℤ◌, neg, ltb_ℤ, leb_ℤ}
use smmfalcron.Table.{lookup, put}
use smmfalcron.Models.{Db, User, LedgerEntry, EntryType, available_paise}
use smmfalcron.Env.{Env}
use smmfalcron.Security.{new_idempotency_key, key_or}
use smmfalcron.Session.{
  Session, insufficient_funds, no_such_row, wallet_error, ◌>>=◌, ◌>>◌, return, throw, read,
  found_or, write, raise_if,
}

-- The rows of the ledger, newest first.
unfoldable pub find_key : String → List LedgerEntry → Option LedgerEntry
find_key k [] = none
find_key k (e ∷ es) = if e.idempotency_key == k then some e else find_key k es

-- The keyword arguments that only label the entry.
pub record Label : Type 0 where
  pub reason : String
  pub reference_type : Option String
  pub reference_id : Option String
  pub created_by : Option ℕ
  pub meta_json : Option String

unfoldable pub lock_user : ℕ → Session User
lock_user uid = do row ← read (λ db. lookup uid db.users); found_or no_such_row row

unfoldable pub existing_entry : String → Session (Option LedgerEntry)
existing_entry key = read (λ db. find_key key db.ledger)

abbrev pub ledger_entry : ℕ → User → ℤ → EntryType → Label → String → ℤ → ℤ → LedgerEntry
ledger_entry now u amount kind label key new_balance new_reserved = record {
  user_id = u.telegram_id;
  amount_paise = amount;
  entry_type = kind;
  reason = truncate 255 label.reason;
  reference_type = label.reference_type;
  reference_id = label.reference_id;
  idempotency_key = key;
  balance_after_paise = new_balance;
  reserved_after_paise = new_reserved;
  meta_json = label.meta_json;
  created_by = label.created_by;
  created_at = now;
}

abbrev pub with_balances : Db → User → ℤ → ℤ → User
with_balances db u new_balance new_reserved = record u {
  cached_balance_paise = new_balance;
  cached_reserved_paise = new_reserved;
  updated_at = db.now;
}

-- The user's row and the new entry, written together.
abbrev pub push : User → ℤ → ℤ → LedgerEntry → Db → Db
push u new_balance new_reserved entry db = record db {
  users = put u.telegram_id (with_balances db u new_balance new_reserved) db.users;
  ledger = entry ∷ db.ledger;
}

-- `_append`
unfoldable pub append_entry : User → ℤ → EntryType → Label → String → ℤ → ℤ → Session LedgerEntry
append_entry u amount kind label key new_balance new_reserved = do
  raise_if (ltb_ℤ new_balance (pos 0) || ltb_ℤ new_reserved (pos 0))
      (wallet_error "Wallet invariant violated")
  raise_if (ltb_ℤ new_balance new_reserved) insufficient_funds
  entry ← read (λ db. ledger_entry db.now u amount kind label key new_balance new_reserved)
  write (push u new_balance new_reserved entry)
  return entry

-- `if existing is not None: return existing`
abbrev pub or_existing : Option LedgerEntry → Session LedgerEntry → Session LedgerEntry
or_existing (some e) rest = return e
or_existing none rest = rest

-- What each of the five begins with: the amount must be positive, the user's row is locked, and an
-- entry that has the key already is returned as it is.
unfoldable pub once :
    ℤ → String → ℕ → (User → String) → (User → String → Session LedgerEntry) → Session LedgerEntry
unfolding lock_user existing_entry
once amount complaint uid key_for body = do
  raise_if (leb_ℤ amount (pos 0)) (wallet_error complaint)
  u ← lock_user uid
  existing ← existing_entry (key_for u)
  or_existing existing (body u (key_for u))

module _ ⦃env : Env⦄ where
  -- The key of a credit or a debit: the given one, or a hash of what is paid to whom.
  abbrev pub payment_key : String → ℤ → Label → Option String → User → String
  payment_key word amount label given u = key_or given (
      new_idempotency_key
        (word ∷ env.str_int (pos u.telegram_id) ∷ label.reason ∷ env.str_int amount ∷ []))

  unfoldable pub credit : ℕ → ℤ → Label → Option String → Session LedgerEntry
  credit uid amount label given =
      once amount "Credit amount must be positive" uid (payment_key "credit" amount label given)
        λ u key.
          append_entry u amount EntryType.credit label key (u.cached_balance_paise +ℤ amount)
            u.cached_reserved_paise

  unfoldable pub debit : ℕ → ℤ → Label → Option String → Session LedgerEntry
  debit uid amount label given =
      once amount "Debit amount must be positive" uid (payment_key "debit" amount label given)
        λ u key. do
          raise_if (ltb_ℤ (available_paise u) amount) insufficient_funds
          append_entry u (neg amount) EntryType.debit label key (u.cached_balance_paise -ℤ amount)
              u.cached_reserved_paise

unfoldable pub reserve : ℕ → ℤ → Label → String → Session LedgerEntry
reserve uid amount label given =
    once amount "Reserve amount must be positive" uid (λ _. given)
      λ u key. do
        raise_if (ltb_ℤ (available_paise u) amount) insufficient_funds
        append_entry u (pos 0) EntryType.reserve label key u.cached_balance_paise
            (u.cached_reserved_paise +ℤ amount)

-- A release of more than is reserved releases what is reserved.
unfoldable pub release : ℕ → ℤ → Label → String → Session LedgerEntry
release uid amount label given =
    once amount "Release amount must be positive" uid (λ _. given)
      λ u key.
        if ltb_ℤ u.cached_reserved_paise amount
        then (if leb_ℤ u.cached_reserved_paise (pos 0)
            then append_entry u (pos 0) EntryType.release label key u.cached_balance_paise (pos 0)
            else append_entry u (pos 0) EntryType.release label key u.cached_balance_paise
                (u.cached_reserved_paise -ℤ u.cached_reserved_paise))
        else append_entry u (pos 0) EntryType.release label key u.cached_balance_paise
            (u.cached_reserved_paise -ℤ amount)

unfoldable pub capture : ℕ → ℤ → Label → String → Session LedgerEntry
capture uid amount label given =
    once amount "Capture amount must be positive" uid (λ _. given)
      λ u key. do
        raise_if (ltb_ℤ u.cached_reserved_paise amount)
            (wallet_error "Cannot capture more than the reserved amount")
        append_entry u (neg amount) EntryType.capture label key (u.cached_balance_paise -ℤ amount)
            (u.cached_reserved_paise -ℤ amount)

module _ ⦃env : Env⦄ where
  -- A call of one of the five, with its key given.
  unfoldable pub run : EntryType → ℕ → ℤ → Label → String → Session LedgerEntry
  unfolding credit debit reserve release capture
  run EntryType.credit uid amount label key = credit uid amount label (some key)
  run EntryType.debit uid amount label key = debit uid amount label (some key)
  run EntryType.reserve uid amount label key = reserve uid amount label key
  run EntryType.release uid amount label key = release uid amount label key
  run EntryType.capture uid amount label key = capture uid amount label key

rows_of : ℕ → List LedgerEntry → List LedgerEntry
rows_of uid es = select (λ e. e.user_id == uid) es

-- A page of a user's entries, newest first.
unfoldable pub list_entries : ℕ → ℕ → ℕ → Db → List LedgerEntry
unfolding rows_of
list_entries uid limit offset db = take limit (drop offset (rows_of uid db.ledger))
