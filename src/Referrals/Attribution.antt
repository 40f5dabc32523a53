-- ===== src/Referrals/Attribution.antt =====
-- app/referrals.py: referral codes, the /start links, and who counts as a partner.
use smmfalcron.Prelude.{
  ℕ, String, Bool, true, false, not, Option, none, some, ◌∷◌, ◌&&◌, ◌||◌, ◌==◌, ◌%◌, nat_eq,
  string_eq, select, take, map, append, join_with, strip, truncate, zero, suc, if◌then◌else◌,
}
use smmfalcron.Prelude.Int.{pos, eqb_ℤ}
use smmfalcron.Table.{lookup, put, adjust}
use smmfalcron.Models.{
  Db, User, Role, Reseller, Promoter, PanelStatus, is_active_panel, ReferralClick,
}
use smmfalcron.Env.{Env}
use smmfalcron.Session.{Session, ◌>>=◌, ◌>>◌, return, read, write, one_or_none, when}
use smmfalcron.Referrals.{rows}

-- Assignments to the fields of a user that the session holds.
abbrev pub change_user : ℕ → (ℕ → User → User) → Db → Db
change_user uid f db = record db { users = adjust uid (f db.now) db.users }

-- `_ALPHABET[k]`
unfoldable pub nth_char : ℕ → String → String
nth_char k String.[] = ""
nth_char zero (String.◌∷◌ c s) = String.◌∷◌ c String.[]
nth_char (suc k) (String.◌∷◌ c s) = nth_char k s

abbrev pub alphabet : String
alphabet = "ABCDEFGHJKLMNPQRSTUVWXYZ23456789"

abbrev pub has_code : String → User → Bool
has_code code u = elim u.referral_code [ none ↦ false | some c ↦ c == code ]

abbrev pub code_or_empty : Option String → String
code_or_empty none = ""
code_or_empty (some c) = c

abbrev pub with_code : String → ℕ → User → User
with_code code now u = record u { referral_code = some code; updated_at = now }

abbrev pub referred : ℕ → ℕ → User → User
referred referrer_id now u = record u { referred_by = some referrer_id; updated_at = now }

abbrev pub click : ℕ → String → Option ℕ → ℕ → Bool → ReferralClick
click now code referrer_id visitor_id is_signup = record {
  code = truncate 16 code;
  referrer_id = referrer_id;
  visitor_id = visitor_id;
  is_signup = is_signup;
  created_at = now;
}

abbrev pub add_click : String → Option ℕ → ℕ → Bool → Db → Db
add_click code referrer_id visitor_id is_signup db = record db {
  referral_clicks = click db.now code referrer_id visitor_id is_signup ∷ db.referral_clicks;
}

abbrev pub is_no_one : Option ℕ → Bool
is_no_one none = true
is_no_one (some rid) = false

-- What follows once the code's owner is looked up: a visitor who has no referrer yet gets one.
unfoldable pub attribute : String → User → Option User → Session (Option User)
attribute code visitor none = do write (add_click code none visitor.telegram_id false); return none
attribute code visitor (some r) = if r.telegram_id == visitor.telegram_id then return none else do
  when (is_no_one visitor.referred_by)
      (write (change_user visitor.telegram_id (referred r.telegram_id)))
  write (add_click code (some r.telegram_id) visitor.telegram_id (is_no_one visitor.referred_by))
  return (some r)

module _ ⦃env : Env⦄ where
  unfoldable pub make_referral_code : ℕ → String
  unfolding nth_char
  make_referral_code telegram_id =
      let digest = env.sha256_bytes (append "falaron-ref:" (env.str_int (pos telegram_id))) in
      join_with "" (map (λ b. nth_char (b % 32) alphabet) (take 6 digest))

  abbrev clashing : String → ℕ → User → Bool
  clashing code uid u = has_code code u && not (u.telegram_id == uid)

  abbrev free_code : String → ℕ → Option User → String
  free_code code uid none = code
  free_code code uid (some other) = append code (env.str_int (pos (uid % 9)))

  unfoldable pub new_code : User → Session String
  new_code u = do
    let code = make_referral_code u.telegram_id
    found ← read (λ db. select (clashing code u.telegram_id) (rows db.users))
    clash ← one_or_none found
    write (change_user u.telegram_id (with_code (free_code code u.telegram_id clash)))
    return (free_code code u.telegram_id clash)

  unfoldable pub ensure_referral_code : User → Session String
  unfolding new_code
  ensure_referral_code u =
      let code = code_or_empty u.referral_code in if code == "" then new_code u else return code

  -- `(code or "").strip().upper()`
  abbrev pub normal_code : String → String
  normal_code code = env.upper (strip env.is_space code)

  unfoldable pub user_by_referral_code : String → Session (Option User)
  user_by_referral_code code = if normal_code code == "" then return none else do
    found ← read (λ db. select (has_code (normal_code code)) (rows db.users))
    one_or_none found

  unfoldable pub record_start_hit : String → User → Session (Option User)
  unfolding user_by_referral_code
  record_start_hit code visitor = if normal_code code == "" then return none else do
    referrer ← user_by_referral_code (normal_code code)
    attribute (normal_code code) visitor referrer

abbrev is_staff : Role → Bool
is_staff Role.owner = true
is_staff Role.admin = true
is_staff Role.user = false
is_staff Role.reseller = false
is_staff Role.promoter = false

abbrev pub new_reseller : ℕ → ℕ → String → Reseller
new_reseller now uid tier = record {
  user_id = uid;
  tier = tier;
  discount_bp = pos 1_200;
  status = PanelStatus.active;
  created_at = now;
  updated_at = now;
}

abbrev pub new_promoter : ℕ → ℕ → Promoter
new_promoter now uid = record {
  user_id = uid;
  status = PanelStatus.active;
  created_at = now;
  updated_at = now;
}

-- `res.status = "active"`, and the default discount where there is none
abbrev reinstated : Reseller → Reseller
reinstated r = record r {
  status = PanelStatus.active;
  discount_bp = if eqb_ℤ r.discount_bp (pos 0) then pos 1_200 else r.discount_bp;
}

abbrev activated : Promoter → Promoter
activated p = record p { status = PanelStatus.active }

abbrev owner_reseller : ℕ → Option Reseller → Db → Db
owner_reseller uid none db = record db {
  resellers = put uid (new_reseller db.now uid "gold") db.resellers;
}
owner_reseller uid (some r) db = record db { resellers = adjust uid reinstated db.resellers }

abbrev pub panel_promoter : ℕ → Option Promoter → Db → Db
panel_promoter uid none db = record db {
  promoters = put uid (new_promoter db.now uid) db.promoters;
}
panel_promoter uid (some p) db = record db { promoters = adjust uid activated db.promoters }

unfoldable pub ensure_owner_partners : User → Session (Unit {0})
ensure_owner_partners u = if not (is_staff u.role) then return tt else do
  write (λ db. owner_reseller u.telegram_id (lookup u.telegram_id db.resellers) db)
  write (λ db. panel_promoter u.telegram_id (lookup u.telegram_id db.promoters) db)

unfoldable pub active_reseller : ℕ → Db → Option Reseller
active_reseller uid db = elim (lookup uid db.resellers) [
  | none ↦ none
  | some r ↦ if is_active_panel r.status then some r else none
]

unfoldable pub active_promoter : ℕ → Db → Option Promoter
active_promoter uid db = elim (lookup uid db.promoters) [
  | none ↦ none
  | some p ↦ if is_active_panel p.status then some p else none
]

abbrev is_found {ℓ} : {A : Type ℓ} → Option A → Bool
is_found none = false
is_found (some a) = true

abbrev is_reseller_role : Role → Bool
is_reseller_role Role.reseller = true
is_reseller_role _ = false

abbrev is_promoter_role : Role → Bool
is_promoter_role Role.promoter = true
is_promoter_role _ = false

-- `user.telegram_id == owner_id or user.role in {"owner", "admin"}`
unfoldable pub runs_shop : User → ℕ → Bool
runs_shop u owner_id = u.telegram_id == owner_id || is_staff u.role

unfoldable pub is_reseller_user : User → ℕ → Session Bool
unfolding ensure_owner_partners
is_reseller_user u owner_id =
    if runs_shop u owner_id
    then (do ensure_owner_partners u; return true)
    else if is_reseller_role u.role
    then return true
    else read (λ db. is_found (active_reseller u.telegram_id db))

unfoldable pub is_promoter_user : User → ℕ → Session Bool
unfolding ensure_owner_partners
is_promoter_user u owner_id =
    if runs_shop u owner_id
    then (do ensure_owner_partners u; return true)
    else if is_promoter_role u.role
    then return true
    else read (λ db. is_found (active_promoter u.telegram_id db))

unfoldable pub partner_flags : User → ℕ → Session (Bool × Bool)
unfolding is_reseller_user is_promoter_user
partner_flags u owner_id = do
  reseller ← is_reseller_user u owner_id
  promoter ← is_promoter_user u owner_id
  return (reseller, promoter)
