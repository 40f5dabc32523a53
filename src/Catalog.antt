-- ===== src/Catalog.antt =====
-- app/catalog.py: settings, the kill switches, and the service on offer; app/audit.py.
pub mod Closed
use smmfalcron.Prelude.{
  ℕ, String, Bool, Option, none, some, ◌∷◌, ◌||◌, ◌==◌, string_eq, strip, truncate, if◌then◌else◌,
}
use smmfalcron.Table.{lookup, put}
use smmfalcron.Models.{Db, Service, AuditLog}
use smmfalcron.Env.{Env}
use smmfalcron.Session.{Session, permission_error, ◌>>=◌, ◌>>◌, read, write, raise_if}

unfoldable pub get_setting : String → String → Db → String
get_setting key default db = elim (lookup key db.settings) [ none ↦ default | some v ↦ v ]

unfoldable pub set_setting : String → String → Session (Unit {0})
set_setting key value = write (λ db. record db { settings = put key value db.settings })

unfoldable pub get_service : String → Db → Option Service
get_service service_id db = lookup service_id db.services

module _ ⦃env : Env⦄ where
  unfoldable pub is_kill_on : String → Db → Bool
  unfolding get_setting
  is_kill_on key db =
      let v = strip env.is_space (get_setting key "0" db) in
      v == "1" || (v == "true" || (v == "True" || v == "yes"))

  unfoldable pub assert_orders_open : Session (Unit {0})
  assert_orders_open = do
    maintenance ← read (is_kill_on "global_maintenance")
    raise_if maintenance (permission_error "FALARON is in maintenance. Please try again later.")
    read_only ← read (is_kill_on "read_only")
    raise_if read_only (permission_error "The platform is in read-only mode.")
    paused ← read (is_kill_on "kill_new_orders")
    raise_if paused (permission_error "New orders are temporarily paused.")

  unfoldable pub closed : String → Db → Bool
  closed switch db =
      is_kill_on "global_maintenance" db || (is_kill_on "read_only" db || is_kill_on switch db)

  unfoldable pub assert_payments_open : Session (Unit {0})
  assert_payments_open = do
    paused ← read (closed "kill_payments")
    raise_if paused (permission_error "Deposits are temporarily paused.")

  unfoldable pub assert_refills_open : Session (Unit {0})
  assert_refills_open = do
    paused ← read (closed "kill_refills")
    raise_if paused (permission_error "Refills are temporarily paused.")

abbrev cut_if_any : ℕ → Option String → Option String
cut_if_any n none = none
cut_if_any n (some s) = if s == "" then none else some (truncate n s)

-- `audit`: the old and new values are JSON texts for people to read, and are not modelled.
unfoldable pub audit : String → String → Option String → Option String → Session (Unit {0})
audit actor action target reason = write λ db.
    let row : AuditLog = record {
      actor = truncate 48 actor;
      action = truncate 64 action;
      target = cut_if_any 80 target;
      reason = cut_if_any 255 reason;
      created_at = db.now;
    } in
    record db { audit_logs = row ∷ db.audit_logs }
