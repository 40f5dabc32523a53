-- ===== src/Referrals/Applications.antt =====
-- app/referrals.py: applications for a partner's role.
use smmfalcron.Prelude.{
  ℕ, String, Bool, true, false, Option, none, some, [], ◌∷◌, ◌&&◌, ◌==◌, suc, nat_eq, string_eq,
  truncate, if◌then◌else◌,
}
use smmfalcron.Table.{Table, lookup, put, adjust}
use smmfalcron.Models.{Db, User, Role, Reseller, PanelStatus, RoleApplication, ApplicationStatus}
use smmfalcron.Session.{Session, ◌>>=◌, ◌>>◌, return, read, write}
use smmfalcron.Referrals.Attribution.{change_user, new_reseller, panel_promoter}

abbrev is_waiting : ApplicationStatus → Bool
is_waiting ApplicationStatus.pending = true
is_waiting _ = false

abbrev pub is_pending_for : ℕ → String → RoleApplication → Bool
is_pending_for uid kind row = row.user_id == uid && (row.kind == kind && is_waiting row.status)

-- `order_by(RoleApplication.id.desc()).limit(1)`: the last row that fits, by its id.
unfoldable pub pending_application : ℕ → String → Table ℕ RoleApplication → Option ℕ
pending_application uid kind [] = none
pending_application uid kind ((id, row) ∷ t) = elim (pending_application uid kind t) [
  | none ↦ if is_pending_for uid kind row then some id else none
  | some later ↦ some later
]

abbrev pub change_application : ℕ → (RoleApplication → RoleApplication) → Db → Db
change_application id f db = record db { applications = adjust id f db.applications }

abbrev pub with_pitch : String → RoleApplication → RoleApplication
with_pitch pitch row = record row { pitch = truncate 2_000 pitch }

abbrev pub decided : ApplicationStatus → RoleApplication → RoleApplication
decided status row = record row { status = status }

abbrev pub add_application : ℕ → String → String → Db → Db
add_application uid kind pitch db =
    let row : RoleApplication = record {
      user_id = uid;
      kind = kind;
      pitch = truncate 2_000 pitch;
      status = ApplicationStatus.pending;
      created_at = db.now;
    } in
    record db {
      applications = put db.next_application_id row db.applications;
      next_application_id = suc db.next_application_id;
    }

unfoldable pub resubmit : ℕ → String → String → Option ℕ → Session ℕ
resubmit uid kind pitch none = do
  id ← read (λ db. db.next_application_id)
  write (add_application uid kind pitch)
  return id
resubmit uid kind pitch (some id) = do write (change_application id (with_pitch pitch)); return id

-- The application comes back by its id.
unfoldable pub submit_application : User → String → String → Session ℕ
unfolding resubmit pending_application
submit_application u kind pitch = do
  existing ← read (λ db. pending_application u.telegram_id kind db.applications)
  resubmit u.telegram_id kind pitch existing

abbrev active_again : Reseller → Reseller
active_again r = record r { status = PanelStatus.active }

abbrev pub panel_reseller : ℕ → Option Reseller → Db → Db
panel_reseller uid none db = record db {
  resellers = put uid (new_reseller db.now uid "bronze") db.resellers;
}
panel_reseller uid (some r) db = record db { resellers = adjust uid active_again db.resellers }

-- `if user.role == "user": user.role = …`
abbrev promoted : Role → Role → Role
promoted new Role.user = new
promoted new Role.owner = Role.owner
promoted new Role.admin = Role.admin
promoted new Role.reseller = Role.reseller
promoted new Role.promoter = Role.promoter

abbrev pub with_role : Role → ℕ → User → User
with_role new now u = record u { role = promoted new u.role }

unfoldable pub give_role : String → Option User → Session (Unit {0})
give_role kind none = return tt
give_role kind (some u) =
    if kind == "reseller"
    then (do
      write (λ db. panel_reseller u.telegram_id (lookup u.telegram_id db.resellers) db)
      write (change_user u.telegram_id (with_role Role.reseller)))
    else if kind == "promoter"
    then (do
      write (λ db. panel_promoter u.telegram_id (lookup u.telegram_id db.promoters) db)
      write (change_user u.telegram_id (with_role Role.promoter)))
    else return tt

-- The application that the caller holds, by its id.
unfoldable pub approve_application : ℕ → RoleApplication → Session (Unit {0})
unfolding give_role
approve_application id application = do
  write (change_application id (decided ApplicationStatus.approved))
  owner ← read (λ db. lookup application.user_id db.users)
  give_role application.kind owner

unfoldable pub reject_application : ℕ → Session (Unit {0})
reject_application id = write (change_application id (decided ApplicationStatus.rejected))
