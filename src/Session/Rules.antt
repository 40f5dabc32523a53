-- ===== src/Session/Rules.antt =====
-- Rules for what a function of a session ensures where it returns: one for each way to build one.
use smmfalcron.Prelude.{
  ◌≡◌, refl, Bool, true, false, Option, none, some, List, [], ◌∷◌, if◌then◌else◌,
}
use smmfalcron.Models.{Db}
use smmfalcron.Session.{
  Session, Outcome, returns, raises, Error, Ensures, and_then, ◌>>=◌, ◌>>◌, found_or, one_or_none,
  raise_if,
}

module _ {ℓ κ} {A : Type ℓ} {B : Type κ} (Q : B → Db → Type 0) where
  and_then-Ensures :
      (R : A → Db → Type 0) (k : A → Session B) (out : Outcome A) (db : Db)
      → Ensures R (out, db)
      → ((a : A) (after : Db) → R a after → Ensures Q (k a after))
      → Ensures Q (and_then out k db)
  and_then-Ensures R k (returns a) db h rest = rest a db h
  and_then-Ensures R k (raises e) db h rest = tt

  pub bind-Ensures :
      (R : A → Db → Type 0) (m : Session A) (k : A → Session B) (db : Db)
      → Ensures R ((m db).0, (m db).1)
      → ((a : A) (after : Db) → R a after → Ensures Q (k a after))
      → Ensures Q ((m >>= k) db)
  bind-Ensures R m k db h rest = and_then-Ensures R k (m db).0 (m db).1 h rest

  pub found_or-Ensures :
      (e : Error) (o : Option A) (k : A → Session B) (db : Db)
      → ((a : A) → o ≡ some a → Ensures Q (k a db))
      → Ensures Q ((found_or e o >>= k) db)
  found_or-Ensures e none k db rest = tt
  found_or-Ensures e (some a) k db rest = rest a refl

module _ {ℓ} {A : Type ℓ} (Q : A → Db → Type 0) where
  pub raise_if-Ensures :
      (c : Bool) (e : Error) (k : Session A) (db : Db)
      → (c ≡ false → Ensures Q (k db))
      → Ensures Q ((raise_if c e >> k) db)
  raise_if-Ensures true e k db rest = tt
  raise_if-Ensures false e k db rest = rest refl

  pub if-Ensures :
      (c : Bool) (m n : Session A) (db : Db)
      → (c ≡ true → Ensures Q (m db))
      → (c ≡ false → Ensures Q (n db))
      → Ensures Q ((if c then m else n) db)
  if-Ensures true m n db hm hn = hm refl
  if-Ensures false m n db hm hn = hn refl

pub one_or_none-Ensures {ℓ} :
    {A : Type ℓ} (rows : List A) (db : Db) → Ensures (λ o after. after ≡ db) (one_or_none rows db)
one_or_none-Ensures [] db = refl
one_or_none-Ensures (a ∷ []) db = refl
one_or_none-Ensures (a ∷ b ∷ rows) db = tt

pub any_Ensures {ℓ} : {A : Type ℓ} (end : Outcome A × Db) → Ensures (λ _ _. Unit {0}) end
any_Ensures (returns a, db) = tt
any_Ensures (raises e, db) = tt
