-- ===== src/Models/Users.antt =====
-- app/models.py: users, the wallet ledger, and the reseller and promoter panels.
use smmfalcron.Prelude.{ℕ, String, Bool, true, false, Option}
use smmfalcron.Prelude.Int.{ℤ, ◌-ℤ◌}

-- `User.role`
pub data Role : Type 0 where
  user owner admin reseller promoter : Role

pub record User : Type 0 where
  pub telegram_id : ℕ
  pub username : Option String
  pub first_name : Option String
  pub last_name : Option String
  pub language_code : String
  pub role : Role
  pub is_banned : Bool
  pub terms_accepted_at : Option ℕ
  pub cached_balance_paise : ℤ
  pub cached_reserved_paise : ℤ
  pub referral_code : Option String
  pub referred_by : Option ℕ
  pub created_at : ℕ
  pub updated_at : ℕ

-- The property `User.available_paise`.
abbrev pub available_paise : User → ℤ
available_paise u = u.cached_balance_paise -ℤ u.cached_reserved_paise

-- `LedgerEntry.entry_type`, the `EntryType` of wallet.py
pub data EntryType : Type 0 where
  credit debit reserve release capture : EntryType

abbrev pub is_credit : EntryType → Bool
is_credit EntryType.credit = true
is_credit _ = false

pub record LedgerEntry : Type 0 where
  pub user_id : ℕ
  pub amount_paise : ℤ
  pub entry_type : EntryType
  pub reason : String
  pub reference_type : Option String
  pub reference_id : Option String
  pub idempotency_key : String
  pub balance_after_paise : ℤ
  pub reserved_after_paise : ℤ
  pub meta_json : Option String
  pub created_by : Option ℕ
  pub created_at : ℕ

-- `status` of a reseller's or promoter's panel: "active", "pending", or another word
pub data PanelStatus : Type 0 where
  active pending other : PanelStatus

abbrev pub is_active_panel : PanelStatus → Bool
is_active_panel PanelStatus.active = true
is_active_panel _ = false

pub record Reseller : Type 0 where
  pub user_id : ℕ
  pub tier : String
  pub discount_bp : ℤ
  pub status : PanelStatus
  pub created_at : ℕ
  pub updated_at : ℕ

pub record Promoter : Type 0 where
  pub user_id : ℕ
  pub status : PanelStatus
  pub created_at : ℕ
  pub updated_at : ℕ

pub record PayoutRequest : Type 0 where
  pub public_id : String
  pub user_id : ℕ
  pub kind : String
  pub amount_paise : ℤ
  pub status : String
  pub created_at : ℕ

pub record ReferralClick : Type 0 where
  pub code : String
  pub referrer_id : Option ℕ
  pub visitor_id : ℕ
  pub is_signup : Bool
  pub created_at : ℕ

-- `RoleApplication.status`
pub data ApplicationStatus : Type 0 where
  pending approved rejected : ApplicationStatus

pub record RoleApplication : Type 0 where
  pub user_id : ℕ
  pub kind : String
  pub pitch : String
  pub status : ApplicationStatus
  pub created_at : ℕ
