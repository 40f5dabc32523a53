-- ===== src/Models/Catalog.antt =====
-- app/models.py: providers, categories, services and star prices.
use smmfalcron.Prelude.{ℕ, String, Bool, Option}
use smmfalcron.Prelude.Int.{ℤ}

-- A Python `float`, by its 64 bits. Its arithmetic is the platform's (Env.antt).
abbrev pub Float : Type 0
Float = ℕ

pub record Provider : Type 0 where
  pub id : String
  pub is_active : Bool
  pub markup_percent : Option Float
  pub markup_fixed_paise : Option ℤ
  pub fx_to_inr : Float
  pub auto_activate_new : Bool
  pub adapter_type : String
  pub last_sync_at : Option ℕ
  pub last_sync_status : Option String

pub record Category : Type 0 where
  pub id : String
  pub name : String
  pub sort_order : ℕ
  pub is_active : Bool
  pub markup_percent : Option Float
  pub markup_fixed_paise : Option ℤ

pub record Service : Type 0 where
  pub id : String
  pub category_id : String
  pub provider_id : String
  pub provider_service_id : String
  pub name : String
  pub service_type : String
  pub min_qty : ℤ
  pub max_qty : ℤ
  pub rate_per_1000_paise : ℤ
  pub markup_percent : Option Float
  pub markup_fixed_paise : Option ℤ
  pub is_active : Bool
  pub is_refillable : Bool
  pub is_cancelable : Bool
  pub external_name : Option String
  pub external_category : Option String
  pub is_removed_upstream : Bool
  pub last_synced_at : Option ℕ

pub record StarPrice : Type 0 where
  pub id : String
  pub service_id : String
  pub user_id : Option ℕ
  pub custom_rate_per_1000_paise : ℤ
  pub is_active : Bool

pub record SyncRun : Type 0 where
  pub provider_id : String
  pub status : String
  pub added : ℕ
  pub updated : ℕ
  pub removed : ℕ
  pub skipped_invalid : ℕ
  pub detail : Option String
  pub started_at : ℕ
  pub finished_at : Option ℕ
