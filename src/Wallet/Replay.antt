-- ===== src/Wallet/Replay.antt =====
-- Idempotence and atomicity of the operations of app/wallet.py.
use mathlib.Core.Path.{subst}
use smmfalcron.Wallet.Invariant.{IsSound}
use smmfalcron.Prelude.{
  ℕ, ◌≡◌, refl, String, Bool, true, false, some, nat_eq, string_eq, nat_eqb_iff, ==_refl,
  if◌then◌else◌, ◌∙◌,
}
use smmfalcron.Prelude.Int.{ℤ, pos, ◌<ℤ◌, leb_ℤ, ltb_ℤ, lt→leb_ℤ}
use smmfalcron.Table.{lookup, lookup-put}
use smmfalcron.Models.{Db, User, LedgerEntry, EntryType, available_paise}
use smmfalcron.Env.{Env}
use smmfalcron.Session.{Session, Outcome, returns, raises, Error}
use smmfalcron.Wallet.{with_balances, Label, find_key, ledger_entry, push, append_entry, once, run}
use smmfalcron.Wallet.Rules.{raise_if-ends, append_entry-ends, once-ends}

-- How a call that began at `db` has ended: after a raise nothing is written, and after a return the
-- same call returns the same entry once more and writes nothing.
abbrev Repeats : Session LedgerEntry → Db → Outcome LedgerEntry → Db → Type 0
Repeats m db (returns x) after = m after ≡ (returns x, after)
Repeats m db (raises e) after = after ≡ db

module _ (amount : ℤ) (complaint : String) (uid : ℕ) (key_for : User → String)
    (body : User → String → Session LedgerEntry) where
  pub once-found :
      (u : User) (x : LedgerEntry) (db : Db)
      → pos 0 <ℤ amount
      → lookup uid db.users ≡ some u
      → find_key (key_for u) db.ledger ≡ some x
      → once amount complaint uid key_for body db ≡ (returns x, db)
  unfolding once
  once-found u x db amt at old = rw (lt→leb_ℤ amount (pos 0) amt, at, old)

  once-pushed :
      (u : User) (amount' : ℤ) (kind : EntryType) (label : Label) (b r : ℤ) (db : Db)
      → u.telegram_id ≡ uid
      → key_for (with_balances db u b r) ≡ key_for u
      → pos 0 <ℤ amount
      → let entry = ledger_entry db.now u amount' kind label (key_for u) b r in
        once amount complaint uid key_for body (push u b r entry db)
        ≡ (returns entry, push u b r entry db)
  once-pushed u amount' kind label b r db own same amt =
      let entry = ledger_entry db.now u amount' kind label (key_for u) b r in
      once-found (with_balances db u b r) entry (push u b r entry db) amt
        (lookup-put u.telegram_id uid _ db.users ∙ rw ((nat_eqb_iff u.telegram_id uid).1 own))
        (unfold find_key in rw (same, ==_refl (key_for u)))

  -- The five bodies end in `_append`, and the key does not hang on the balances.
  once-Repeats :
      (db : Db)
      → IsSound db
      → ((u : User)
          → lookup uid db.users ≡ some u
          → ((kind : EntryType) (label : Label) (amount' b r : ℤ)
              → Repeats
                  (once amount complaint uid key_for body)
                  db
                  (append_entry u amount' kind label (key_for u) b r db).0
                  (append_entry u amount' kind label (key_for u) b r db).1)
          → Repeats
              (once amount complaint uid key_for body)
              db
              (body u (key_for u) db).0
              (body u (key_for u) db).1)
      → ((u : User) (b r : ℤ) → key_for (with_balances db u b r) ≡ key_for u)
      → Repeats
          (once amount complaint uid key_for body)
          db
          (once amount complaint uid key_for body db).0
          (once amount complaint uid key_for body db).1
  once-Repeats db h ends same =
      once-ends (Repeats (once amount complaint uid key_for body) db) amount complaint uid key_for
        body db (λ e. refl) (λ u x amt at old. once-found u x db amt at old)
        λ u amt at fresh. ends u at λ kind label amount' b r.
          append_entry-ends (Repeats (once amount complaint uid key_for body) db) u amount' kind
            label (key_for u) b r db (λ e. refl)
            λ low high.
              once-pushed u amount' kind label b r db (h.wallets uid u at).own_row (same u b r) amt

if-ends {ℓ} :
    {A : Type ℓ} (P : A → Type 0) (c : Bool) (m n : A) → P m → P n → P (if c then m else n)
if-ends P true m n hm hn = hm
if-ends P false m n hm hn = hn

module _ ⦃env : Env⦄ where
  run-Repeats :
      (kind : EntryType) (uid : ℕ) (amount : ℤ) (label : Label) (key : String) (db : Db)
      → IsSound db
      → Repeats
          (run kind uid amount label key)
          db
          (run kind uid amount label key db).0
          (run kind uid amount label key db).1
  unfolding run
  run-Repeats EntryType.credit uid amount label key db h =
      once-Repeats amount _ uid _ _ db h (λ u at appends. appends EntryType.credit label _ _ _)
        (λ u b r. refl)
  run-Repeats EntryType.debit uid amount label key db h =
      once-Repeats amount _ uid _ _ db h
        (λ u at appends.
          raise_if-ends (Repeats (run EntryType.debit uid amount label key) db)
            (ltb_ℤ (available_paise u) amount) _ _ db (λ _. refl)
            (λ _. appends EntryType.debit label _ _ _))
        (λ u b r. refl)
  run-Repeats EntryType.reserve uid amount label key db h =
      once-Repeats amount _ uid _ _ db h
        (λ u at appends.
          raise_if-ends (Repeats (run EntryType.reserve uid amount label key) db)
            (ltb_ℤ (available_paise u) amount) _ _ db (λ _. refl)
            (λ _. appends EntryType.reserve label _ _ _))
        (λ u b r. refl)
  run-Repeats EntryType.release uid amount label key db h =
      once-Repeats amount _ uid _ _ db h
        (λ u at appends.
          if-ends
            (λ (m : Session LedgerEntry).
              Repeats (run EntryType.release uid amount label key) db (m db).0 (m db).1)
            (ltb_ℤ u.cached_reserved_paise amount) _ _
            (if-ends
              (λ (m : Session LedgerEntry).
                Repeats (run EntryType.release uid amount label key) db (m db).0 (m db).1)
              (leb_ℤ u.cached_reserved_paise (pos 0)) _ _ (appends EntryType.release label _ _ _)
              (appends EntryType.release label _ _ _))
            (appends EntryType.release label _ _ _))
        (λ u b r. refl)
  run-Repeats EntryType.capture uid amount label key db h =
      once-Repeats amount _ uid _ _ db h
        (λ u at appends.
          raise_if-ends (Repeats (run EntryType.capture uid amount label key) db)
            (ltb_ℤ u.cached_reserved_paise amount) _ _ db (λ _. refl)
            (λ _. appends EntryType.capture label _ _ _))
        (λ u b r. refl)

  -- From a sound database, a wallet operation that returned an entry returns the same entry when
  -- the same call is made again on the database it left, and changes nothing then.
  pub run_again :
      (kind : EntryType) (uid : ℕ) (amount : ℤ) (label : Label) (key : String) (db : Db)
      {x : LedgerEntry} {after : Db}
      → IsSound db
      → run kind uid amount label key db ≡ (returns x, after)
      → run kind uid amount label key after ≡ (returns x, after)
  run_again kind uid amount label key db {x} {after} h e =
      subst
        (λ (out : Outcome LedgerEntry × Db). Repeats (run kind uid amount label key) db out.0 out.1)
        e (run-Repeats kind uid amount label key db h)

  -- From a sound database a wallet operation that raises has written nothing.
  pub run_atomic :
      (kind : EntryType) (uid : ℕ) (amount : ℤ) (label : Label) (key : String) (db : Db) {e : Error}
      {after : Db}
      → IsSound db
      → run kind uid amount label key db ≡ (raises e, after)
      → after ≡ db
  run_atomic kind uid amount label key db {e} {after} h r =
      subst
        (λ (out : Outcome LedgerEntry × Db). Repeats (run kind uid amount label key) db out.0 out.1)
        r (run-Repeats kind uid amount label key db h)
