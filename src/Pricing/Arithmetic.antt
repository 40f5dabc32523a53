-- ===== src/Pricing/Arithmetic.antt =====
-- app/pricemath.py, and the helpers of app/pricing.py that compute one rate.
use smmfalcron.Prelude.{ℕ, Option, none, some, String, if◌then◌else◌, string_eq}
use smmfalcron.Prelude.Int.{ℤ, pos, ◌-ℤ◌, ◌*ℤ◌, leb_ℤ, eqb_ℤ, min_ℤ, max_ℤ}
use smmfalcron.Table.{lookup}
use smmfalcron.Models.{Float, Db}
use smmfalcron.Env.{Env}

module _ ⦃env : Env⦄ where
  abbrev pub whole : ℕ → Float
  whole n = env.of_int (pos n)

  -- cost * (1.0 + percent / 100.0)
  abbrev pub marked_up : ℤ → Float → Float
  marked_up cost percent =
      env.mul (env.of_int cost) (env.add (whole 1) (env.div percent (whole 100)))

  unfoldable pub margin_floor_per_1000 : ℤ → Float → ℤ
  margin_floor_per_1000 cost min_margin_percent =
      max_ℤ (env.ceil (marked_up cost (env.larger min_margin_percent (whole 0)))) cost

  unfoldable pub scale_to_qty : ℤ → ℤ → ℤ
  scale_to_qty per_1000_paise quantity =
      if leb_ℤ quantity (pos 0)
      then pos 0
      else env.ceil (env.div (env.of_int (per_1000_paise *ℤ quantity)) (whole 1000))

  abbrev pub or_zero : Option Float → Float
  or_zero none = whole 0
  or_zero (some p) = p

  abbrev pub or_nothing : Option ℤ → ℤ
  or_nothing none = pos 0
  or_nothing (some n) = n

  -- `_apply_markup`; `percent or 0.0` and `fixed or 0`
  unfoldable pub apply_markup : ℤ → Option Float → Option ℤ → ℤ
  apply_markup cost percent fixed =
      env.ceil (env.add (marked_up cost (or_zero percent)) (env.of_int (or_nothing fixed)))

  -- `_enforce_min_margin`
  unfoldable pub enforce_min_margin : ℤ → ℤ → Float → ℤ
  enforce_min_margin cost sell min_margin_percent =
      max_ℤ sell (margin_floor_per_1000 cost min_margin_percent)

  -- `max(0, min(discount_bp or DEFAULT_RESELLER_DISCOUNT_BP, 9000))`
  abbrev pub reseller_bp : ℤ → ℤ
  reseller_bp discount_bp =
      max_ℤ (pos 0) (min_ℤ (if eqb_ℤ discount_bp (pos 0) then pos 1200 else discount_bp) (pos 9000))

  unfoldable pub apply_reseller_rate : ℤ → ℤ → ℤ → ℤ
  unfolding enforce_min_margin
  apply_reseller_rate cost retail discount_bp =
      enforce_min_margin cost
        (env.ceil
          (env.div (env.of_int (retail *ℤ (pos 10_000 -ℤ reseller_bp discount_bp))) (whole 10_000)))
        (whole 10)

  -- `_setting_float`
  unfoldable pub setting_float : String → Float → Db → Float
  setting_float key default db = elim (lookup key db.settings) [
    | none ↦ default
    | some value ↦ elim (env.parse_float value) [ none ↦ default | some x ↦ x ]
  ]

unfoldable pub cap_discount_to_floor : ℤ → ℤ → ℤ → ℤ
cap_discount_to_floor subtotal discount floor =
    let headroom = subtotal -ℤ max_ℤ floor (pos 0) in
    if leb_ℤ discount (pos 0)
    then pos 0
    else if leb_ℤ subtotal (pos 0)
    then pos 0
    else if leb_ℤ headroom (pos 0)
    then pos 0
    else min_ℤ (min_ℤ discount headroom) subtotal
