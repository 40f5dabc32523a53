-- ===== src/Pricing/Coupons.antt =====
-- `apply_coupon` of app/pricing.py.
use smmfalcron.Prelude.{
  ℕ, String, Bool, false, not, Option, none, some, List, ◌&&◌, ◌==◌, string_eq, nat_eq, nat_eqb,
  ltb, leb, length, select, if◌then◌else◌, strip,
}
use smmfalcron.Prelude.Int.{ℤ, pos, ltb_ℤ, eqb_ℤ, min_ℤ, max_ℤ}
use smmfalcron.Table.{lookup}
use smmfalcron.Models.{Coupon, CouponRedemption, DiscountType}
use smmfalcron.Env.{Env}
use smmfalcron.Session.{Session, value_error, ◌>>=◌, ◌>>◌, return, read, found_or, raise_if}
use smmfalcron.Pricing.Arithmetic.{whole}

-- The discount, the code that is charged for it, and the coupon's row.
abbrev pub Applied : Type 0
Applied = ℤ × Option String × Option Coupon

abbrev pub expired : ℕ → Option ℕ → Bool
expired now none = false
expired now (some t) = ltb t now

abbrev pub used_up : Coupon → Bool
used_up c = elim c.max_uses [ none ↦ false | some n ↦ leb n c.used_count ]

abbrev pub used_by : String → ℕ → List CouponRedemption → List CouponRedemption
used_by code user_id rows = select (λ r. r.coupon_code == code && r.user_id == user_id) rows

module _ ⦃env : Env⦄ where
  abbrev pub full_discount : Coupon → ℤ → ℤ
  full_discount c subtotal = elim c.discount_type [
    | DiscountType.percent ↦ env.floor (env.div (env.mul (env.of_int subtotal) c.value) (whole 100))
    | DiscountType.fixed ↦ env.trunc c.value
  ]

  -- What follows once the coupon's row is found.
  unfoldable pub apply_row : Coupon → ℕ → ℤ → Session Applied
  apply_row c user_id subtotal = do
    raise_if (not c.is_active) (value_error "Unknown or inactive coupon")
    now ← read (λ db. db.now)
    raise_if (expired now c.expires_at) (value_error "Coupon has expired")
    raise_if (not (eqb_ℤ c.min_order_paise (pos 0)) && ltb_ℤ subtotal c.min_order_paise)
        (value_error "Coupon requires a minimum order")
    raise_if (used_up c) (value_error "Coupon has reached its usage limit")
    used ← read (λ db. used_by c.code user_id db.redemptions)
    raise_if (not (nat_eqb c.per_user_limit 0) && leb c.per_user_limit (length used))
        (value_error "You have already used this coupon")
    return (max_ℤ (pos 0) (min_ℤ (full_discount c subtotal) subtotal), some c.code, some c)

  unfoldable pub apply_coupon : Option String → ℕ → ℤ → Session Applied
  apply_coupon none user_id subtotal = return (pos 0, none, none)
  apply_coupon (some code) user_id subtotal = if code == "" then return (pos 0, none, none) else do
    row ← read (λ db. lookup (env.upper (strip env.is_space code)) db.coupons)
    c ← found_or (value_error "Unknown or inactive coupon") row
    apply_row c user_id subtotal
