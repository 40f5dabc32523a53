-- ===== src/Tests/Fixtures.antt =====
-- A platform whose floats are hundred-thousandths, and a database with two users, of whom the first
-- has paid in 500.00.
use smmfalcron.Prelude.{
  ℕ, String, ◌≡◌, refl, ◌+◌, ◌*◌, ◌/◌, true, false, none, some, [], ◌∷◌, arith, nat_eq, string_eq,
  nat_eqb, leb, if◌then◌else◌,
}
use smmfalcron.Prelude.Int.{pos, pos_part, ◌+ℤ◌}
use smmfalcron.Table.{lookup}
use smmfalcron.Models.{
  Payment, PaymentStatus, Db, User, Role, LedgerEntry, EntryType, Service, Provider, PanelStatus,
}
use smmfalcron.Env.{Env, Floats}
use smmfalcron.Wallet.{Label, find_key}
use smmfalcron.Wallet.Invariant.{IsSound, IsReconciled}

abbrev pub fixed_point : Floats
fixed_point = record {
  of_int = λ n. pos_part n * 100_000;
  add = λ a b. a + b;
  mul = λ a b. a * b / 100_000;
  div = λ a b. a * 100_000 / b;
  larger = λ a b. if leb a b then b else a;
  smaller = λ a b. if leb a b then a else b;
  le = leb;
  ceil = λ a. pos ((a + 99_999) / 100_000);
  floor = λ a. pos (a / 100_000);
  round = λ a. pos ((a + 50_000) / 100_000);
  trunc = λ a. pos (a / 100_000);
  is_zero = λ a. nat_eqb a 0;
  is_finite = λ a. true;
}

-- A hash that keeps its text behind a mark, so that different texts have different keys and none is
-- empty.
instance abbrev pub test_env : Env
test_env = record {
  sha256_hex = λ s. String.◌∷◌ "#" s;
  sha256_bytes = λ s. 7 ∷ [];
  sha1_hex = λ s. s;
  upper = λ s. s;
  lower = λ s. s;
  is_space = λ c. nat_eqb c 32;
  dumps_sorted = λ x. "{}";
  dumps = λ x. "{}";
  isoformat = λ t. "now";
  str_int = λ n. "n";
  grouped_rupees = λ n. "n";
  fits_integer = λ n. true;
  parse_float = λ s. none;
  floats = fixed_point;
}

abbrev pub alice : User
alice = record {
  telegram_id = 1;
  username = none;
  first_name = none;
  last_name = none;
  language_code = "en";
  role = Role.user;
  is_banned = false;
  terms_accepted_at = some 10;
  cached_balance_paise = pos 50_000;
  cached_reserved_paise = pos 0;
  referral_code = none;
  referred_by = some 2;
  created_at = 10;
  updated_at = 20;
}

abbrev pub bob : User
bob = record alice {
  telegram_id = 2;
  role = Role.reseller;
  cached_balance_paise = pos 0;
  referred_by = none;
}

abbrev pub label : Label
label = record {
  reason = "test";
  reference_type = none;
  reference_id = none;
  created_by = none;
  meta_json = none;
}

abbrev pub first_deposit : LedgerEntry
first_deposit = record {
  user_id = 1;
  amount_paise = pos 50_000;
  entry_type = EntryType.credit;
  reason = "Deposit";
  reference_type = some "payment";
  reference_id = some "PAY-1";
  idempotency_key = "#deposit|PAY-1";
  balance_after_paise = pos 50_000;
  reserved_after_paise = pos 0;
  meta_json = none;
  created_by = none;
  created_at = 20;
}

abbrev pub shop : Db
shop = record {
  now = 100;
  users = (1, alice) ∷ (2, bob) ∷ [];
  ledger = first_deposit ∷ [];
  resellers = [];
  promoters = [];
  payouts = [];
  referral_clicks = [];
  applications = [];
  next_application_id = 1;
  providers = [];
  categories = [];
  services = [];
  star_prices = [];
  settings = [];
  orders = [];
  next_order_id = 1;
  order_events = [];
  coupons = [];
  redemptions = [];
  idempotency = [];
  reseller_orders = [];
  payments = [];
  payment_events = [];
  audit_logs = [];
  sync_runs = [];
}

shop-wallets :
    (uid : ℕ) (u : User)
    → (if nat_eqb 1 uid then some alice else if nat_eqb 2 uid then some bob else none) ≡ some u
    → IsReconciled uid u shop.ledger
unfolding ◌+ℤ◌
shop-wallets uid u e = ground arith

pub shop-IsSound : IsSound shop
unfolding lookup find_key
shop-IsSound = record { wallets = shop-wallets; unique = (refl, tt) }

-- Instagram followers at 100.00 per 1,000 from a provider that is online.
abbrev pub followers : Service
followers = record {
  id = "svc-1";
  category_id = "cat-1";
  provider_id = "prov-1";
  provider_service_id = "77";
  name = "Followers";
  service_type = "default";
  min_qty = pos 100;
  max_qty = pos 10_000;
  rate_per_1000_paise = pos 10_000;
  markup_percent = none;
  markup_fixed_paise = none;
  is_active = true;
  is_refillable = true;
  is_cancelable = true;
  external_name = none;
  external_category = none;
  is_removed_upstream = false;
  last_synced_at = none;
}

abbrev pub panel : Provider
panel = record {
  id = "prov-1";
  is_active = true;
  markup_percent = none;
  markup_fixed_paise = none;
  fx_to_inr = 100_000;
  auto_activate_new = true;
  adapter_type = "perfectpanel";
  last_sync_at = none;
  last_sync_status = none;
}

-- The shop with something to sell, and with bob's reseller panel.
abbrev pub market : Db
market = record shop {
  services = ("svc-1", followers) ∷ [];
  providers = ("prov-1", panel) ∷ [];
  resellers =
      (
        2,
        record {
          user_id = 2;
          tier = "bronze";
          discount_bp = pos 1_200;
          status = PanelStatus.active;
          created_at = 5;
          updated_at = 5;
        },
      )
      ∷ [];
}

-- The invoice of alice's first deposit, and one that is open.
abbrev pub paid_invoice : Payment
paid_invoice = record {
  public_id = "PAY-1";
  user_id = 1;
  amount_paise = pos 50_000;
  method = "razorpay";
  status = PaymentStatus.paid;
  provider_ref = some "plink_a";
  currency = "INR";
  checkout_url = none;
  failure_reason = none;
  idempotency_key = "#pay|1";
  paid_at = some 20;
  created_at = 15;
}

abbrev pub unpaid_invoice : Payment
unpaid_invoice = record paid_invoice {
  public_id = "PAY-2";
  amount_paise = pos 20_000;
  status = PaymentStatus.pending;
  provider_ref = some "plink_b";
  idempotency_key = "#pay|2";
  paid_at = none;
  created_at = 90;
}

abbrev pub till : Db
till = record market { payments = ("PAY-1", paid_invoice) ∷ ("PAY-2", unpaid_invoice) ∷ [] }
