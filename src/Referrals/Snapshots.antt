-- ===== src/Referrals/Snapshots.antt =====
-- app/referrals.py: the figures that partners are shown.
use smmfalcron.Prelude.{
  ℕ, String, Bool, true, false, Option, none, some, List, [], ◌∷◌, ◌&&◌, ◌||◌, ◌==◌, ◌-◌, suc,
  nat_eq, string_eq, select, length, map, max, leb, if◌then◌else◌,
}
use smmfalcron.Prelude.Int.{ℤ, pos, ◌+ℤ◌}
use smmfalcron.Table.{lookup}
use smmfalcron.Models.{
  Db, User, Order, OrderStatus, LedgerEntry, Reseller, ReferralClick, PanelStatus, is_completed,
  is_credit, is_active_status, available_paise,
}
use smmfalcron.Env.{Env}
use smmfalcron.Session.{Session, ◌>>=◌, return, read}
use smmfalcron.Referrals.{rows, has, commission_paise}
use smmfalcron.Referrals.Attribution.{ensure_referral_code, with_code}

pub record ReferralSnapshot : Type 0 where
  pub code : String
  pub invited : ℕ
  pub earnings_paise : ℤ
  pub pending_paise : ℤ
  pub converting : ℕ

abbrev is_id : ℕ → Option ℕ → Bool
is_id uid none = false
is_id uid (some n) = n == uid

-- The users that one user has referred, by their ids.
abbrev pub downline_ids : ℕ → Db → List ℕ
downline_ids uid db =
    map (λ (u : User). u.telegram_id) (select (λ u. is_id uid u.referred_by) (rows db.users))

abbrev is_referral : Option String → Bool
is_referral none = false
is_referral (some t) = t == "referral"

abbrev sum_amounts : List LedgerEntry → ℤ
sum_amounts [] = pos 0
sum_amounts (e ∷ es) = e.amount_paise +ℤ sum_amounts es

abbrev pub earned : ℕ → Db → ℤ
earned uid db = sum_amounts (
    select
      (λ (e : LedgerEntry).
        e.user_id == uid && (is_referral e.reference_type && is_credit e.entry_type))
      db.ledger)

abbrev distinct_ids : List ℕ → List ℕ
distinct_ids [] = []
distinct_ids (n ∷ ns) = let rest = distinct_ids ns in if has n rest then rest else n ∷ rest

abbrev completed_by : ℕ → Db → ℕ
completed_by uid db =
    length (select (λ (o : Order). o.user_id == uid && is_completed o.status) (rows db.orders))

-- `count(distinct(Order.user_id))` over the completed orders of the downline
abbrev pub converting_count : List ℕ → Db → ℕ
converting_count ids db = length (
    distinct_ids (
      map (λ (o : Order). o.user_id)
        (select (λ (o : Order). has o.user_id ids && is_completed o.status) (rows db.orders))))

abbrev how_many : ℕ → List ℕ → ℕ
how_many n [] = 0
how_many n (k ∷ ks) = let rest = how_many n ks in if k == n then suc rest else rest

module _ ⦃env : Env⦄ where
  -- The open orders by id, as far as a user has commissioned orders left; `used` names the user of
  -- each one counted so far.
  unfoldable pub pending_total : Db → List ℕ → List Order → ℤ
  pending_total db used [] = pos 0
  pending_total db used (o ∷ os) =
      let skipped = pending_total db used os in
      let counted = pending_total db (o.user_id ∷ used) os in
      if leb (3 - completed_by o.user_id db) (how_many o.user_id used)
      then skipped
      else commission_paise o.charge_paise 8 +ℤ counted

  abbrev pub pending_of : List ℕ → Db → ℤ
  pending_of ids db =
      pending_total db []
        (select (λ (o : Order). has o.user_id ids && is_active_status o.status) (rows db.orders))

  unfoldable pub referral_snapshot : User → Session ReferralSnapshot
  unfolding pending_total
  referral_snapshot u = do
    code ← ensure_referral_code u
    ids ← read (downline_ids u.telegram_id)
    earnings ← read (earned u.telegram_id)
    pending ← read (pending_of ids)
    converting ← read (converting_count ids)
    return (record {
      code = code;
      invited = length ids;
      earnings_paise = earnings;
      pending_paise = pending;
      converting = converting;
    })

pub record PromoterSnapshot : Type 0 where
  pub clicks : ℕ
  pub signups : ℕ
  pub converting : ℕ
  pub commission_paise : ℤ
  pub available_paise : ℤ
  pub code : String

abbrev pub clicks_of : ℕ → String → Db → ℕ
clicks_of uid code db =
    length
      (select (λ (c : ReferralClick). is_id uid c.referrer_id || c.code == code) db.referral_clicks)

abbrev pub signups_of : ℕ → Db → ℕ
signups_of uid db =
    length
      (select (λ (c : ReferralClick). is_id uid c.referrer_id && c.is_signup) db.referral_clicks)

module _ ⦃env : Env⦄ where
  -- The second call has the user whose code the first has set.
  unfoldable pub promoter_snapshot : User → Session PromoterSnapshot
  unfolding referral_snapshot
  promoter_snapshot u = do
    code ← ensure_referral_code u
    ref ← referral_snapshot (with_code code u.updated_at u)
    clicks ← read (clicks_of u.telegram_id code)
    signups ← read (signups_of u.telegram_id)
    return (record {
      clicks = clicks;
      signups = max signups ref.invited;
      converting = ref.converting;
      commission_paise = ref.earnings_paise;
      available_paise = available_paise u;
      code = code;
    })

pub record ResellerSnapshot : Type 0 where
  pub tier : String
  pub discount_bp : ℤ
  pub orders : ℕ
  pub gmv_paise : ℤ
  pub wallet_paise : ℤ
  pub downline : ℕ
  -- none where the user has no panel, which the code spells "none"
  pub status : Option PanelStatus

abbrev sum_charges : List Order → ℤ
sum_charges [] = pos 0
sum_charges (o ∷ os) = o.charge_paise +ℤ sum_charges os

-- `Order.status.notin_(("failed", "canceled", "cancelled"))`
abbrev counts_as_sold : OrderStatus → Bool
counts_as_sold OrderStatus.failed = false
counts_as_sold OrderStatus.canceled = false
counts_as_sold _ = true

abbrev panel_tier : Option Reseller → String
panel_tier none = "bronze"
panel_tier (some r) = r.tier

abbrev panel_discount : Option Reseller → ℤ
panel_discount none = pos 1_200
panel_discount (some r) = r.discount_bp

abbrev panel_status : Option Reseller → Option PanelStatus
panel_status none = none
panel_status (some r) = some r.status

unfoldable pub reseller_snapshot : User → Db → ResellerSnapshot
reseller_snapshot u db =
    let panel = lookup u.telegram_id db.resellers in
    let own = select (λ (o : Order). o.user_id == u.telegram_id) (rows db.orders) in
    record {
      tier = panel_tier panel;
      discount_bp = panel_discount panel;
      orders = length own;
      gmv_paise = sum_charges (select (λ (o : Order). counts_as_sold o.status) own);
      wallet_paise = available_paise u;
      downline = length (downline_ids u.telegram_id db);
      status = panel_status panel;
    }
