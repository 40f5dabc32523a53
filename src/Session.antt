-- ===== src/Session.antt =====
-- A database session: every service function of the code takes one, reads and writes rows through
-- it, and may raise. What was written before a raise stays in the session, so the state comes back
-- beside the error; `session_scope` (app/db.py) then throws it away.
pub mod Rules
pub mod Keeps
use smmfalcron.Prelude.{String, Bool, true, false, Option, none, some, List, [], ◌∷◌, if◌then◌else◌}
use smmfalcron.Models.{Db}

-- The exception classes of the money paths, with their messages where they are literals.
pub data Error : Type 0 where
  insufficient_funds no_such_row multiple_results integrity_error : Error
  -- a flush that the database refuses for a value, and any exception of no class named here
  database_error unexpected : Error
  wallet_error order_error permission_error value_error deposit_error : String → Error

pub data Outcome {ℓ} (A : Type ℓ) : Type ℓ where
  returns : A → Outcome A
  raises : Error → Outcome A

abbrev pub Returned {ℓ} : {A : Type ℓ} → Outcome A → Type 0
Returned (returns a) = Unit
Returned (raises e) = ⊥

abbrev pub Session {ℓ} : Type ℓ → Type ℓ
Session A = Db → Outcome A × Db

abbrev pub and_then {ℓ κ} : {A : Type ℓ} {B : Type κ} → Outcome A → (A → Session B) → Session B
and_then (returns a) k = k a
and_then (raises e) k = λ db. (raises e, db)

infixl 5 ◌>>=◌ ◌>>◌
abbrev pub ◌>>=◌ {ℓ κ} : {A : Type ℓ} {B : Type κ} → Session A → (A → Session B) → Session B
◌>>=◌ m k db = let (out, db') = m db in and_then out k db'

abbrev pub ◌>>◌ {ℓ κ} : {A : Type ℓ} {B : Type κ} → Session A → Session B → Session B
m >> k = m >>= λ _. k

module _ {ℓ} {A : Type ℓ} where
  abbrev pub return : A → Session A
  return a db = (returns a, db)

  abbrev pub throw : Error → Session A
  throw e db = (raises e, db)

  abbrev pub read : (Db → A) → Session A
  read f db = (returns (f db), db)

  abbrev pub found_or : Error → Option A → Session A
  found_or e none = throw e
  found_or e (some a) = return a

-- `try: … except E as exc: raise F(…) from exc`
abbrev pub renamed {ℓ} : {A : Type ℓ} → (Error → Error) → Outcome A → Outcome A
renamed f (returns a) = returns a
renamed f (raises e) = raises (f e)

abbrev pub rethrow {ℓ} : {A : Type ℓ} → (Error → Error) → Session A → Session A
rethrow f m db = let (out, after) = m db in (renamed f out, after)

abbrev pub write : (Db → Db) → Session (Unit {0})
write f db = (returns tt, f db)

-- `if test: raise e`
abbrev pub raise_if : Bool → Error → Session (Unit {0})
raise_if true e = throw e
raise_if false e = return tt

-- `if test: body`, and on with what follows
abbrev pub when : Bool → Session (Unit {0}) → Session (Unit {0})
when true body = body
when false body = return tt

-- Whether a raise leaves the session unusable: after a flush that failed, everything on it raises, up
-- to and with its commit.
unfoldable pub is_fatal : Error → Bool
is_fatal integrity_error = true
is_fatal database_error = true
is_fatal e = false

-- `try: … except Exception: …` around a part of a session. What the part wrote before it raised stays
-- in the session; where the session is unusable, so that the commit will raise whatever follows, the
-- error is thrown on at once.
unfoldable pub caught {ℓ} : {A : Type ℓ} → Outcome A → Outcome (Outcome A)
unfolding is_fatal
caught (returns a) = returns (returns a)
caught (raises e) = if is_fatal e then raises e else returns (raises e)

abbrev pub attempted {ℓ} : {A : Type ℓ} → Session A → Session (Outcome A)
attempted m db = let (out, after) = m db in (caught out, after)

-- Where a session that began at `before` is left.
abbrev pub settle {ℓ} : {A : Type ℓ} → Outcome A → Db → Db → Db
settle (returns a) before after = after
settle (raises e) before after = before

-- `session_scope` of app/db.py: commit what returned, roll back what raised.
abbrev pub session_scope {ℓ} : {A : Type ℓ} → Session A → Session A
session_scope m db = let (out, after) = m db in (out, settle out db after)

-- `scalar_one_or_none()` on the rows of a query
abbrev pub one_or_none {ℓ} : {A : Type ℓ} → List A → Session (Option A)
one_or_none [] = return none
one_or_none (a ∷ []) = return (some a)
one_or_none (a ∷ b ∷ rows) = throw multiple_results

-- What holds of the result and the state where a function of a session returned.
abbrev pub Ensures {ℓ} : {A : Type ℓ} → (A → Db → Type 0) → Outcome A × Db → Type 0
Ensures Q (returns a, db) = Q a db
Ensures Q (raises e, db) = Unit
