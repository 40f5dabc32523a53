-- ===== src/Session/Keeps.antt =====
-- Rules for what a function of a session keeps, whether it returns or raises: one for each way to
-- build one.
use smmfalcron.Prelude.{Bool, true, false, Option, none, some, List, [], ◌∷◌, if◌then◌else◌}
use smmfalcron.Models.{Db}
use smmfalcron.Session.{
  Session, Outcome, returns, raises, Error, and_then, ◌>>=◌, ◌>>◌, found_or, one_or_none, raise_if,
  read, return, settle, session_scope, throw, rethrow, when, attempted,
}

pub record Keeps {ℓ} {A : Type ℓ} (I : Db → Type 0) (m : Session A) : Type 0 where
  pub kept : (db : Db) → I db → I (m db).1

-- The same from one state, of which more is known than the invariant.
pub record Reaches {ℓ} {A : Type ℓ} (I : Db → Type 0) (m : Session A) (db : Db) : Type 0 where
  pub reached : I (m db).1

settle-Keeps {ℓ} :
    (I : Db → Type 0) {A : Type ℓ} (out : Outcome A) (before after : Db)
    → I before
    → I after
    → I (settle out before after)
settle-Keeps I (returns a) before after old new = new
settle-Keeps I (raises e) before after old new = old

module _ {I : Db → Type 0} where
  module _ {ℓ κ} {A : Type ℓ} {B : Type κ} where
    and_then-Keeps :
        (k : A → Session B) (out : Outcome A) (db : Db)
        → I db
        → ((a : A) → Keeps I (k a))
        → I (and_then out k db).1
    and_then-Keeps k (returns a) db h rest = (rest a).kept db h
    and_then-Keeps k (raises e) db h rest = h

    pub bind-Keeps :
        {m : Session A} {k : A → Session B}
        → Keeps I m
        → ((a : A) → Keeps I (k a))
        → Keeps I (m >>= k)
    bind-Keeps {m} {k} hm hk = record {
      kept = λ db h. and_then-Keeps k (m db).0 (m db).1 (hm.kept db h) hk;
    }

    pub bind-Reaches :
        {m : Session A} {k : A → Session B} {db : Db}
        → Reaches I m db
        → ((a : A) → Keeps I (k a))
        → Reaches I (m >>= k) db
    bind-Reaches {m} {k} {db} hm hk = record {
      reached = and_then-Keeps k (m db).0 (m db).1 hm.reached hk;
    }

    pub then-Keeps : {m : Session A} {k : Session B} → Keeps I m → Keeps I k → Keeps I (m >> k)
    then-Keeps hm hk = bind-Keeps hm λ _. hk

  -- Where the first part leads to what is more than the invariant, the second may start from that.
  module _ {ℓ κ} {A : Type ℓ} {B : Type κ} {J : Db → Type 0} where
    and_then-Passes :
        (k : A → Session B) (out : Outcome A) (db : Db)
        → ((db : Db) → J db → I db)
        → J db
        → ((a : A) (after : Db) → J after → I (k a after).1)
        → I (and_then out k db).1
    and_then-Passes k (returns a) db weaker h rest = rest a db h
    and_then-Passes k (raises e) db weaker h rest = weaker db h

    pub bind-Passes :
        (m : Session A) (k : A → Session B) (db : Db)
        → ((db : Db) → J db → I db)
        → J (m db).1
        → ((a : A) (after : Db) → J after → I (k a after).1)
        → I ((m >>= k) db).1
    bind-Passes m k db weaker h rest = and_then-Passes k (m db).0 (m db).1 weaker h rest

  module _ {ℓ} {A : Type ℓ} where
    pub read-Keeps : {f : Db → A} → Keeps I (read f)
    read-Keeps = record { kept = λ db h. h }

    pub return-Keeps : {a : A} → Keeps I (return a)
    return-Keeps = record { kept = λ db h. h }

    pub throw-Keeps : (e : Error) → Keeps I (throw {A = A} e)
    throw-Keeps e = record { kept = λ db h. h }

    pub found_or-Keeps : (e : Error) (o : Option A) → Keeps I (found_or e o)
    found_or-Keeps e none = record { kept = λ db h. h }
    found_or-Keeps e (some a) = record { kept = λ db h. h }

    pub if-Keeps :
        {m n : Session A} (c : Bool) → Keeps I m → Keeps I n → Keeps I (if c then m else n)
    if-Keeps true hm hn = hm
    if-Keeps false hm hn = hn

    pub one_or_none-Keeps : (found : List A) → Keeps I (one_or_none found)
    one_or_none-Keeps [] = record { kept = λ db h. h }
    one_or_none-Keeps (a ∷ []) = record { kept = λ db h. h }
    one_or_none-Keeps (a ∷ b ∷ rest) = record { kept = λ db h. h }

  pub raise_if-Keeps : (c : Bool) (e : Error) → Keeps I (raise_if c e)
  raise_if-Keeps true e = record { kept = λ db h. h }
  raise_if-Keeps false e = record { kept = λ db h. h }

  pub when-Keeps : (c : Bool) {m : Session (Unit {0})} → Keeps I m → Keeps I (when c m)
  when-Keeps true hm = hm
  when-Keeps false hm = record { kept = λ db h. h }

  pub rethrow-Keeps {ℓ} :
      {A : Type ℓ} {m : Session A} (f : Error → Error) → Keeps I m → Keeps I (rethrow f m)
  rethrow-Keeps f hm = record { kept = λ db h. hm.kept db h }

  pub attempted-Keeps {ℓ} : {A : Type ℓ} {m : Session A} → Keeps I m → Keeps I (attempted m)
  attempted-Keeps hm = record { kept = λ db h. hm.kept db h }

  pub session_scope-Keeps {ℓ} : {A : Type ℓ} {m : Session A} → Keeps I m → Keeps I (session_scope m)
  session_scope-Keeps {m} hm = record {
    kept = λ db h. settle-Keeps I (m db).0 db (m db).1 h (hm.kept db h);
  }
