-- ===== src/Orders/QuoteKept.antt =====
-- Checking an order's input and quoting its price write nothing that concerns the wallet.
use smmfalcron.Prelude.{
  ℕ, String, Option, none, some, List, nat_eq, string_eq, if◌then◌else◌, ◌==◌, ◌||◌, ◌&&◌, not,
  strip, ltb, leb, chars, any_char, nat_eqb, length,
}
use smmfalcron.Prelude.Int.{max_ℤ, min_ℤ, ℤ, pos, ltb_ℤ, eqb_ℤ}
use smmfalcron.Table.{lookup}
use smmfalcron.Models.{Db, Service, Extra, Coupon, StarPrice, Layer}
use smmfalcron.Env.{Env}
use smmfalcron.Session.{value_error}
use smmfalcron.Session.Keeps.{
  Keeps, then-Keeps, bind-Keeps, read-Keeps, return-Keeps, throw-Keeps, found_or-Keeps,
  raise_if-Keeps, if-Keeps, one_or_none-Keeps,
}
use smmfalcron.Pricing.Coupons.{full_discount, apply_row, apply_coupon, expired, used_up, used_by}
use smmfalcron.Pricing.Arithmetic.{scale_to_qty}
use smmfalcron.Pricing.Quotes.{
  find_star, stars_for, global_stars, own_star, or_global, resolve_sell_rate, coupon_step,
  quote_service, quote_order, panel_of, reseller_rate, floored, quote_of, rate_from,
}
use smmfalcron.Orders.Input.{
  validate_link, validate_extra, has_scheme, starts_with_at, or_empty, either_text, comments_kind,
  mentions_kind, with_comments, with_mentions,
}

module _ {I : Db → Type 0} where
  own_star-Keeps :
      (svc : Service) (rows : List StarPrice) (uid : Option ℕ) → Keeps I (own_star svc rows uid)
  own_star-Keeps svc rows none = return-Keeps
  own_star-Keeps svc rows (some u) = one_or_none-Keeps (stars_for svc.id u rows)

  or_global-Keeps :
      (svc : Service) (rows : List StarPrice) (own : Option StarPrice)
      → Keeps I (or_global svc rows own)
  or_global-Keeps svc rows none = one_or_none-Keeps (global_stars svc.id rows)
  or_global-Keeps svc rows (some s) = return-Keeps

  find_star-Keeps : (svc : Service) (uid : Option ℕ) → Keeps I (find_star svc uid)
  unfolding find_star
  find_star-Keeps svc uid =
      bind-Keeps (read-Keeps {f = λ db. db.star_prices})
        λ rows. bind-Keeps (own_star-Keeps svc rows uid) λ own. or_global-Keeps svc rows own

  module _ ⦃env : Env⦄ where
    pub validate_link-Keeps : (link : String) → Keeps I (validate_link link)
    unfolding validate_link
    validate_link-Keeps link =
        let cleaned = strip env.is_space link in
        if-Keeps (cleaned == "") (throw-Keeps _) (
          if-Keeps (ltb 1024 (chars cleaned)) (throw-Keeps _) (
            if-Keeps (has_scheme cleaned) (return-Keeps {a = cleaned}) (
              if-Keeps (starts_with_at cleaned) (return-Keeps {a = cleaned}) (
                if-Keeps (any_char (nat_eqb b' ') cleaned) (throw-Keeps _) (
                  if-Keeps (any_char (nat_eqb b'.') cleaned) (return-Keeps {a = cleaned})
                    (throw-Keeps _))))))

    apply_row-Keeps : (c : Coupon) (uid : ℕ) (subtotal : ℤ) → Keeps I (apply_row c uid subtotal)
    unfolding apply_row
    apply_row-Keeps c uid subtotal =
        then-Keeps (raise_if-Keeps (not c.is_active) (value_error "Unknown or inactive coupon")) (
          bind-Keeps (read-Keeps {f = λ db. db.now}) λ now.
            then-Keeps
              (raise_if-Keeps (expired now c.expires_at) (value_error "Coupon has expired"))
              (then-Keeps
                (raise_if-Keeps
                  (not (eqb_ℤ c.min_order_paise (pos 0)) && ltb_ℤ subtotal c.min_order_paise)
                  (value_error "Coupon requires a minimum order"))
                (then-Keeps
                  (raise_if-Keeps (used_up c) (value_error "Coupon has reached its usage limit"))
                  (bind-Keeps (read-Keeps {f = λ db. used_by c.code uid db.redemptions}) λ used.
                    then-Keeps
                      (raise_if-Keeps
                        (not (nat_eqb c.per_user_limit 0) && leb c.per_user_limit (length used))
                        (value_error "You have already used this coupon"))
                      (return-Keeps
                        {a = (
                          max_ℤ (pos 0) (min_ℤ (full_discount c subtotal) subtotal),
                          some c.code,
                          some c,
                        )})))))

    apply_coupon-Keeps :
        (code : Option String) (uid : ℕ) (subtotal : ℤ) → Keeps I (apply_coupon code uid subtotal)
    unfolding apply_coupon
    apply_coupon-Keeps none uid subtotal = return-Keeps
    apply_coupon-Keeps (some code) uid subtotal = if-Keeps (code == "") return-Keeps (
        bind-Keeps (read-Keeps {f = λ db. lookup (env.upper (strip env.is_space code)) db.coupons})
          λ row.
            bind-Keeps (found_or-Keeps (value_error "Unknown or inactive coupon") row)
              λ c. apply_row-Keeps c uid subtotal)

    coupon_step-Keeps :
        (svc : Service) (quantity subtotal : ℤ) (layer : Layer) (uid : Option ℕ)
        (code : Option String)
        → Keeps I (coupon_step svc quantity subtotal layer uid code)
    unfolding coupon_step
    coupon_step-Keeps svc quantity subtotal layer none code = return-Keeps
    coupon_step-Keeps svc quantity subtotal layer (some uid) none = return-Keeps
    coupon_step-Keeps svc quantity subtotal layer (some uid) (some code) =
        if-Keeps (code == "") return-Keeps (
          bind-Keeps (apply_coupon-Keeps (some code) uid subtotal)
            λ applied. read-Keeps {f = λ db. floored svc quantity subtotal layer db applied})

    resolve_sell_rate-Keeps : (svc : Service) (uid : Option ℕ) → Keeps I (resolve_sell_rate svc uid)
    unfolding resolve_sell_rate
    resolve_sell_rate-Keeps svc uid =
        bind-Keeps (find_star-Keeps svc uid) λ star. read-Keeps {f = rate_from svc star}

    quote_service-Keeps :
        (svc : Service) (quantity : ℤ) (uid : Option ℕ) (code : Option String)
        → Keeps I (quote_service svc quantity uid code)
    unfolding quote_service
    quote_service-Keeps svc quantity uid code =
        then-Keeps
          (raise_if-Keeps (ltb_ℤ quantity svc.min_qty || ltb_ℤ svc.max_qty quantity)
            (value_error "Quantity is out of range"))
          (bind-Keeps (resolve_sell_rate-Keeps svc uid) λ rate.
            bind-Keeps (read-Keeps {f = panel_of uid}) λ panel.
              let sold = reseller_rate svc panel rate.0 rate.1 in
              bind-Keeps
                (coupon_step-Keeps svc quantity (scale_to_qty sold.0 quantity) sold.1 uid code)
                λ coupon. return-Keeps {a = quote_of svc quantity rate sold coupon})

    pub quote_order-Keeps :
        (id : String) (quantity : ℤ) (uid : Option ℕ) (code : Option String)
        → Keeps I (quote_order id quantity uid code)
    unfolding quote_order
    quote_order-Keeps id quantity uid code =
        bind-Keeps (read-Keeps {f = λ db. lookup id db.services}) λ row.
          bind-Keeps (found_or-Keeps (value_error "Service is not available") row) λ svc.
            then-Keeps (raise_if-Keeps (not svc.is_active) (value_error "Service is not available"))
              (quote_service-Keeps svc quantity uid code)

    with_comments-Keeps : (extra : Extra) → Keeps I (with_comments extra)
    unfolding with_comments
    with_comments-Keeps extra =
        if-Keeps (strip env.is_space (or_empty extra.comments) == "") (throw-Keeps _) return-Keeps

    with_mentions-Keeps : (extra : Extra) → Keeps I (with_mentions extra)
    unfolding with_mentions
    with_mentions-Keeps extra =
        if-Keeps (strip env.is_space (either_text extra.mentions extra.usernames) == "")
          (throw-Keeps _) return-Keeps

    pub validate_extra-Keeps : (svc : Service) (extra : Extra) → Keeps I (validate_extra svc extra)
    unfolding validate_extra
    validate_extra-Keeps svc extra =
        let stype = env.lower (if svc.service_type == "" then "default" else svc.service_type) in
        if-Keeps (comments_kind stype) (with_comments-Keeps extra)
          (if-Keeps (mentions_kind stype) (with_mentions-Keeps extra) (return-Keeps {a = extra}))
