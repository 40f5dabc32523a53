-- ===== src/Pricing/Rates.antt =====
-- The rates of app/pricing.py: each layer and the reseller's rate keep their margin over cost.
use mathlib.Core.Path.{subst, sym}
use smmfalcron.Pricing.Quotes.{
  rate_from, find_star, markup_rate, min_margin, resolve_sell_rate, reseller_rate, sets,
  category_markup, provider_markup, stars_for, global_stars,
}
use smmfalcron.Prelude.{
  ℕ, ◌≡◌, refl, inl, inr, Option, none, some, List, string_eq, nat_eq, arith, Bool-cases,
}
use smmfalcron.Prelude.Int.{
  ℤ, pos, ◌≤ℤ◌, ◌-ℤ◌, ◌*ℤ◌, leb_ℤ, *ℤ_mono, leb_ℤ→gt, max-le-right, ≤ℤ_trans,
}
use smmfalcron.Models.{Db, Float, Service, StarPrice, Layer, Reseller, is_active_panel}
use smmfalcron.Env.{Env, IsOrdered}
use smmfalcron.Session.{Session, Ensures, return, read, one_or_none}
use smmfalcron.Session.Rules.{bind-Ensures, one_or_none-Ensures}
use smmfalcron.Pricing.Arithmetic.{
  whole, margin_floor_per_1000, scale_to_qty, enforce_min_margin, apply_reseller_rate, marked_up,
  reseller_bp,
}

star_fallback :
    (rows : List StarPrice) (own : Option StarPrice) (db after : Db)
    → after ≡ db
    → Ensures
        (λ _ last. last ≡ db)
        ((elim own as (λ _. Session (Option StarPrice)) [
          | some s ↦ return (some s)
          | none ↦ one_or_none rows
        ])
          after)
star_fallback rows none db after e =
    subst (λ d. Ensures (λ _ last. last ≡ d) (one_or_none rows after)) e
      (one_or_none-Ensures rows after)
star_fallback rows (some s) db after e = e

find_star-reads :
    (svc : Service) (uid : Option ℕ) (db : Db)
    → Ensures (λ _ after. after ≡ db) (find_star svc uid db)
unfolding find_star
find_star-reads svc none db = one_or_none-Ensures (global_stars svc.id db.star_prices) db
find_star-reads svc (some u) db =
    bind-Ensures (λ _ after. after ≡ db) (λ _ after. after ≡ db)
      (one_or_none (stars_for svc.id u db.star_prices)) _ db
      (one_or_none-Ensures (stars_for svc.id u db.star_prices) db)
      (λ own after e. star_fallback (global_stars svc.id db.star_prices) own db after e)

module _ ⦃env : Env⦄ where
  pub margin_floor-ge : (cost : ℤ) (margin : Float) → cost ≤ℤ margin_floor_per_1000 cost margin
  unfolding margin_floor_per_1000
  margin_floor-ge cost margin =
      max-le-right (env.ceil (marked_up cost (env.larger margin (whole 0)))) cost

  pub enforce_min_margin-ge :
      (cost sell : ℤ) (margin : Float)
      → margin_floor_per_1000 cost margin ≤ℤ enforce_min_margin cost sell margin
  unfolding enforce_min_margin
  enforce_min_margin-ge cost sell margin = max-le-right sell (margin_floor_per_1000 cost margin)

  pub enforce-ge-cost :
      (cost sell : ℤ) (margin : Float) → cost ≤ℤ enforce_min_margin cost sell margin
  enforce-ge-cost cost sell margin =
      ≤ℤ_trans cost (margin_floor_per_1000 cost margin) (enforce_min_margin cost sell margin)
        (margin_floor-ge cost margin) (enforce_min_margin-ge cost sell margin)

  -- On a platform whose float arithmetic keeps the order, scaling two rates to a quantity keeps their
  -- order.
  pub scale_to_qty_mono :
      (low high quantity : ℤ)
      → IsOrdered env.floats
      → low ≤ℤ high
      → scale_to_qty low quantity ≤ℤ scale_to_qty high quantity
  unfolding scale_to_qty
  scale_to_qty_mono low high quantity laws h = elim (Bool-cases (leb_ℤ quantity (pos 0))) [
    | inl nothing ↦ rw nothing (omega arith)
    | inr some_ ↦ rw some_ (
        laws.ceil_mono _ _ (
          laws.div_mono _ _ 999 (
            laws.of_int_mono _ _
              (*ℤ_mono low high quantity h (omega (arith, leb_ℤ→gt quantity (pos 0) some_))))))
  ]

  markup_rate-margin :
      (svc : Service) (db : Db)
      → margin_floor_per_1000 svc.rate_per_1000_paise (min_margin db) ≤ℤ (markup_rate svc db).0
  unfolding markup_rate
  markup_rate-margin svc db =
      let own = sets (svc.markup_percent, svc.markup_fixed_paise) in
      let kept = λ (sell : ℤ). enforce_min_margin-ge svc.rate_per_1000_paise sell (min_margin db) in
      elim (Bool-cases own) [
        | inl s ↦ rw s (kept _)
        | inr s ↦ elim (Bool-cases (sets (category_markup svc db))) [
          | inl c ↦ rw (s, c) (kept _)
          | inr c ↦ elim (Bool-cases (sets (provider_markup svc db))) [
            | inl p ↦ rw (s, c, p) (kept _)
            | inr p ↦ rw (s, c, p) (kept _)
          ]
        ]
      ]

  star_or_markup :
      (svc : Service) (star : Option StarPrice) (db after : Db)
      → after ≡ db
      → Ensures
          (λ rate last.
            (last ≡ db) × (margin_floor_per_1000 svc.rate_per_1000_paise (min_margin db) ≤ℤ rate.0))
          (read (rate_from svc star) after)
  star_or_markup svc none db after e =
      subst
        (λ d.
          (d ≡ db)
          × (margin_floor_per_1000 svc.rate_per_1000_paise (min_margin db)
              ≤ℤ (markup_rate svc d).0))
        (sym e) (refl, markup_rate-margin svc db)
  star_or_markup svc (some s) db after e =
      subst
        (λ d.
          (d ≡ db)
          × (margin_floor_per_1000 svc.rate_per_1000_paise (min_margin db)
              ≤ℤ enforce_min_margin svc.rate_per_1000_paise s.custom_rate_per_1000_paise
                  (min_margin d)))
        (sym e)
        (
          refl,
          enforce_min_margin-ge svc.rate_per_1000_paise s.custom_rate_per_1000_paise
              (min_margin db),
        )

  -- Every layer's rate keeps the configured margin over cost; the lookup writes nothing.
  pub resolve_sell_rate-margin :
      (svc : Service) (uid : Option ℕ) (db : Db)
      → Ensures
          (λ rate after.
            (after ≡ db)
            × (margin_floor_per_1000 svc.rate_per_1000_paise (min_margin db) ≤ℤ rate.0))
          (resolve_sell_rate svc uid db)
  unfolding resolve_sell_rate
  resolve_sell_rate-margin svc uid db =
      bind-Ensures _ (λ _ after. after ≡ db) (find_star svc uid) _ db (find_star-reads svc uid db)
        (λ star after e. star_or_markup svc star db after e)

  -- A reseller's rate is never below the margin of ten percent over cost, whatever the discount.
  pub apply_reseller_rate-margin :
      (cost retail discount_bp : ℤ)
      → margin_floor_per_1000 cost (whole 10) ≤ℤ apply_reseller_rate cost retail discount_bp
  unfolding apply_reseller_rate
  apply_reseller_rate-margin cost retail discount_bp =
      enforce_min_margin-ge cost
        (env.ceil
          (env.div (env.of_int (retail *ℤ (pos 10_000 -ℤ reseller_bp discount_bp))) (whole 10_000)))
        (whole 10)

  pub reseller_rate-ge-cost :
      (svc : Service) (panel : Option Reseller) (retail : ℤ) (layer : Layer)
      → svc.rate_per_1000_paise ≤ℤ retail
      → svc.rate_per_1000_paise ≤ℤ (reseller_rate svc panel retail layer).0
  reseller_rate-ge-cost svc none retail layer h = h
  reseller_rate-ge-cost svc (some r) retail layer h = elim (Bool-cases (is_active_panel r.status)) [
    | inl on ↦ rw on (
        ≤ℤ_trans svc.rate_per_1000_paise (margin_floor_per_1000 svc.rate_per_1000_paise (whole 10))
          (apply_reseller_rate svc.rate_per_1000_paise retail r.discount_bp)
          (margin_floor-ge svc.rate_per_1000_paise (whole 10))
          (apply_reseller_rate-margin svc.rate_per_1000_paise retail r.discount_bp))
    | inr off ↦ rw off h
  ]
