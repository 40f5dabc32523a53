-- ===== src/Payments/Lifecycle.antt =====
-- What may become of a payment of app/payments/service.py: its invoice never changes, a paid one never
-- changes at all, and a paid one has its entry in the ledger.
use mathlib.Core.Path.{subst}
use smmfalcron.Prelude.{
  ℕ, ◌≡◌, refl, sym, ap, ◌∙◌, inl, inr, String, true, false, none, some, some-inj, nat_eq,
  string_eq, ◌==◌, ==_iff, Bool-cases, if◌then◌else◌,
}
use smmfalcron.Prelude.Int.{ℤ}
use smmfalcron.Table.{Table, lookup, lookup-adjust}
use smmfalcron.Models.{Db, User, LedgerEntry, Payment, is_paid}
use smmfalcron.Env.{Env}
use smmfalcron.Wallet.{find_key, push}
use smmfalcron.Wallet.Pushes.{Pushes}
use smmfalcron.Payments.Settle.{change_payment, deposit_key}

-- The invoice of a payment stays, and a paid payment stays as it is.
pub record IsLater (p q : Payment) : Type 0 where
  pub same_id : q.public_id ≡ p.public_id
  pub same_user : q.user_id ≡ p.user_id
  pub same_amount : q.amount_paise ≡ p.amount_paise
  pub same_currency : q.currency ≡ p.currency
  pub same_method : q.method ≡ p.method
  pub final : is_paid p.status ≡ true → q ≡ p

pub IsLater-refl : (p : Payment) → IsLater p p
IsLater-refl p = record {
  same_id = refl;
  same_user = refl;
  same_amount = refl;
  same_currency = refl;
  same_method = refl;
  final = λ _. refl;
}

IsLater-trans : {p q r : Payment} → IsLater p q → IsLater q r → IsLater p r
IsLater-trans {p} {q} {r} f g = record {
  same_id = g.same_id ∙ f.same_id;
  same_user = g.same_user ∙ f.same_user;
  same_amount = g.same_amount ∙ f.same_amount;
  same_currency = g.same_currency ∙ f.same_currency;
  same_method = g.same_method ∙ f.same_method;
  final = λ paid.
      g.final
        (subst (λ s. is_paid s ≡ true) (sym (ap (λ (x : Payment). x.status) (f.final paid))) paid)
      ∙ f.final paid;
}

lookup-same :
    (id j : String) (t : Table String Payment) {p : Payment}
    → lookup id t ≡ some p
    → (id == j) ≡ true
    → lookup j t ≡ some p
lookup-same id j t {p} at same = subst (λ k. lookup k t ≡ some p) ((==_iff id j).0 same) at

-- A key that the ledger has.
abbrev pub HasKey : String → Db → Type 0
HasKey key db = (e : LedgerEntry) × (find_key key db.ledger ≡ some e)

module _ ⦃env : Env⦄ where
  -- The payments, next to those of an earlier database.
  pub record Accounts (before db : Db) : Type 0 where
    pub filed : (id : String) (p : Payment) → lookup id db.payments ≡ some p → p.public_id ≡ id
    pub follows :
        (id : String) (p : Payment)
        → lookup id before.payments ≡ some p
        → (q : Payment) × (lookup id db.payments ≡ some q) × IsLater p q
    pub backed :
        (id : String) (p : Payment)
        → lookup id db.payments ≡ some p
        → is_paid p.status ≡ true
        → HasKey (deposit_key id) db

  pub HasKey-new :
      {key : String} (u : User) (b r : ℤ) (entry : LedgerEntry) (db : Db)
      → entry.idempotency_key ≡ key
      → HasKey key (push u b r entry db)
  unfolding find_key
  HasKey-new {key} u b r entry db same =
      (entry, rw ((==_iff entry.idempotency_key key).1 same) refl)

  pub HasKey-push :
      (key : String) (u : User) (b r : ℤ) (entry : LedgerEntry) (db : Db)
      → HasKey key db
      → HasKey key (push u b r entry db)
  unfolding find_key
  HasKey-push key u b r entry db (e, found) = elim (Bool-cases (entry.idempotency_key == key)) [
    | inl same ↦ (entry, rw same refl)
    | inr other ↦ (e, rw other found)
  ]

  module _ (before : Db) where
    pub Accounts-Pushes : Pushes (Accounts before)
    Accounts-Pushes = record {
      pushed = λ u b r entry db h. record {
        filed = h.filed;
        follows = h.follows;
        backed =
            λ id p at paid. HasKey-push (deposit_key id) u b r entry db (h.backed id p at paid);
      };
      aside = λ db after _ ledger payments h. record {
        filed = λ id p at. h.filed id p (ap (lookup id) (sym payments) ∙ at);
        follows = λ id p at.
            let (q, found, later) = h.follows id p at in
            (q, ap (lookup id) payments ∙ found, later);
        backed = λ id p at paid.
            let (e, found) = h.backed id p (ap (lookup id) (sym payments) ∙ at) paid in
            (e, ap (find_key (deposit_key id)) ledger ∙ found);
      };
    }

    -- A row that is changed into a later one.
    module _ (id : String) (p q : Payment) (db after : Db) (h : Accounts before db)
        (at : lookup id db.payments ≡ some p) (later : IsLater p q)
        (ledger : after.ledger ≡ db.ledger)
        (changed : (j : String)
          → lookup j after.payments ≡ (if id == j then some q else lookup j db.payments))
        (key : is_paid q.status ≡ true → HasKey (deposit_key id) db) where
      changed-own : (j : String) → (id == j) ≡ true → lookup j after.payments ≡ some q
      changed-own j same = changed j ∙ rw same refl

      changed-other :
          (j : String) → (id == j) ≡ false → lookup j after.payments ≡ lookup j db.payments
      changed-other j other = changed j ∙ rw other refl

      filed-changed :
          (j : String) (r : Payment) → lookup j after.payments ≡ some r → r.public_id ≡ j
      filed-changed j r e = elim (Bool-cases (id == j)) [
        | inl same ↦
            ap (λ (x : Payment). x.public_id) (some-inj (sym e ∙ changed-own j same))
            ∙ later.same_id
            ∙ h.filed j p (lookup-same id j db.payments at same)
        | inr other ↦ h.filed j r (sym (changed-other j other) ∙ e)
      ]

      follows-changed :
          (j : String) (r : Payment)
          → lookup j before.payments ≡ some r
          → (x : Payment) × (lookup j after.payments ≡ some x) × IsLater r x
      follows-changed j r e = elim (Bool-cases (id == j)) [
        | inl same ↦
            let (x, found, until) = h.follows j r e in
            (
              q,
              changed-own j same,
              IsLater-trans until (
                  subst (λ y. IsLater y q)
                    (some-inj (sym (lookup-same id j db.payments at same) ∙ found)) later),
            )
        | inr other ↦
            let (x, found, until) = h.follows j r e in (x, changed-other j other ∙ found, until)
      ]

      backed-changed :
          (j : String) (r : Payment)
          → lookup j after.payments ≡ some r
          → is_paid r.status ≡ true
          → HasKey (deposit_key j) after
      backed-changed j r e paid =
          subst (λ es. (x : LedgerEntry) × (find_key (deposit_key j) es ≡ some x)) (sym ledger)
            (elim (Bool-cases (id == j)) [
              | inl same ↦
                  subst (λ k. HasKey (deposit_key k) db) ((==_iff id j).0 same)
                    (key (
                      subst (λ (x : Payment). is_paid x.status ≡ true)
                        (some-inj (sym e ∙ changed-own j same)) paid))
              | inr other ↦ h.backed j r (sym (changed-other j other) ∙ e) paid
            ])

      pub changed-Accounts : Accounts before after
      changed-Accounts = record {
        filed = filed-changed;
        follows = follows-changed;
        backed = backed-changed;
      }

    pub change_payment-Accounts :
        (id : String) (p : Payment) (f : ℕ → Payment → Payment) (db : Db)
        → Accounts before db
        → lookup id db.payments ≡ some p
        → IsLater p (f db.now p)
        → (is_paid (f db.now p).status ≡ true → HasKey (deposit_key id) db)
        → Accounts before (change_payment id f db).1
    unfolding change_payment
    change_payment-Accounts id p f db h at later key =
        changed-Accounts id p (f db.now p) db _ h at later refl
          (λ j. lookup-adjust id j (f db.now) db.payments ∙ adjusted j) key
      where
        adjusted :
            (j : String)
            → (if id == j
                then elim (lookup j db.payments) [ none ↦ none | some v ↦ some (f db.now v) ]
                else lookup j db.payments)
              ≡ (if id == j then some (f db.now p) else lookup j db.payments)
        adjusted j = elim (Bool-cases (id == j)) [
          | inl same ↦ rw (same, lookup-same id j db.payments at same) refl
          | inr other ↦ rw other refl
        ]
