-- ===== src/Pricing/Margin.antt =====
-- `cap_discount_to_floor` of app/pricemath.py finds the largest discount that keeps the floor.
use smmfalcron.Prelude.{◌≡◌, refl, ◌⊎◌, inl, inr, string_eq, nat_eq, arith, Bool-cases}
use smmfalcron.Prelude.Int.{
  ℤ, pos, ◌≤ℤ◌, ◌<ℤ◌, ◌-ℤ◌, leb_ℤ, max_ℤ, min_ℤ, leb_ℤ→gt, leb_ℤ→le, max-le-left, max-le-right,
  min-le-left, min-le-right, le-min, lt-min, ≤ℤ_trans, le-sub_swap, le-sub_nonneg,
}
use smmfalcron.Pricing.Arithmetic.{cap_discount_to_floor}

module _ (subtotal discount floor : ℤ) where
  abbrev headroom : ℤ
  headroom = subtotal -ℤ max_ℤ floor (pos 0)

  abbrev capped : ℤ
  capped = min_ℤ (min_ℤ discount headroom) subtotal

  -- The three ways to no discount, and the way to one.
  cap_discount-cases :
      (P : ℤ → Type 0)
      → (discount ≤ℤ pos 0 → P (pos 0))
      → (subtotal ≤ℤ pos 0 → P (pos 0))
      → (headroom ≤ℤ pos 0 → P (pos 0))
      → (pos 0 <ℤ discount → pos 0 <ℤ subtotal → pos 0 <ℤ headroom → P capped)
      → P (cap_discount_to_floor subtotal discount floor)
  unfolding cap_discount_to_floor
  cap_discount-cases P asked sub room open_ = elim (Bool-cases (leb_ℤ discount (pos 0))) [
    | inl d ↦ rw d (asked (leb_ℤ→le discount (pos 0) d))
    | inr d ↦ elim (Bool-cases (leb_ℤ subtotal (pos 0))) [
      | inl s ↦ rw (d, s) (sub (leb_ℤ→le subtotal (pos 0) s))
      | inr s ↦ elim (Bool-cases (leb_ℤ headroom (pos 0))) [
        | inl r ↦ rw (d, s, r) (room (leb_ℤ→le headroom (pos 0) r))
        | inr r ↦
            rw (d, s, r)
              (open_ (leb_ℤ→gt discount (pos 0) d) (leb_ℤ→gt subtotal (pos 0) s)
                (leb_ℤ→gt headroom (pos 0) r))
      ]
    ]
  ]

  capped_pos : pos 0 <ℤ discount → pos 0 <ℤ subtotal → pos 0 <ℤ headroom → pos 0 ≤ℤ capped
  capped_pos d s r = omega (
    arith,
    lt-min (min_ℤ discount headroom) subtotal (pos 0) (lt-min discount headroom (pos 0) d r) s,
  )

  capped-le-headroom : capped ≤ℤ headroom
  capped-le-headroom =
      ≤ℤ_trans capped (min_ℤ discount headroom) headroom
        (min-le-left (min_ℤ discount headroom) subtotal) (min-le-right discount headroom)

  capped-le-discount : capped ≤ℤ discount
  capped-le-discount =
      ≤ℤ_trans capped (min_ℤ discount headroom) discount
        (min-le-left (min_ℤ discount headroom) subtotal) (min-le-left discount headroom)

  -- The capped discount is not negative and not more than was asked, or zero where that was
  -- negative; and it is zero, or the charge it leaves is at the floor or above it.
  pub cap_discount_bounds :
      let d = cap_discount_to_floor subtotal discount floor in
      (pos 0 ≤ℤ d)
      × (d ≤ℤ max_ℤ discount (pos 0))
      × ((d ≡ pos 0) ⊎ (max_ℤ floor (pos 0) ≤ℤ subtotal -ℤ d))
  cap_discount_bounds =
      cap_discount-cases
        (λ d.
          (pos 0 ≤ℤ d)
          × (d ≤ℤ max_ℤ discount (pos 0))
          × ((d ≡ pos 0) ⊎ (max_ℤ floor (pos 0) ≤ℤ subtotal -ℤ d)))
        (λ _. (omega arith, max-le-right discount (pos 0), inl refl))
        (λ _. (omega arith, max-le-right discount (pos 0), inl refl))
        (λ _. (omega arith, max-le-right discount (pos 0), inl refl))
        λ d s r. (
          capped_pos d s r,
          ≤ℤ_trans capped discount (max_ℤ discount (pos 0)) capped-le-discount
              (max-le-left discount (pos 0)),
          inr (le-sub_swap capped subtotal (max_ℤ floor (pos 0)) capped-le-headroom),
        )

  -- No larger discount within what was asked leaves a charge at the floor or above it.
  pub cap_discount_largest :
      (d : ℤ)
      → d ≤ℤ discount
      → max_ℤ floor (pos 0) ≤ℤ subtotal -ℤ d
      → d ≤ℤ cap_discount_to_floor subtotal discount floor
  cap_discount_largest d asked kept =
      let room : d ≤ℤ headroom = le-sub_swap (max_ℤ floor (pos 0)) subtotal d kept in
      let under : d ≤ℤ subtotal =
        le-sub_nonneg d subtotal (max_ℤ floor (pos 0)) (max-le-right floor (pos 0)) room in
      cap_discount-cases (λ cap. d ≤ℤ cap) (λ h. ≤ℤ_trans d discount (pos 0) asked h)
        (λ h. ≤ℤ_trans d subtotal (pos 0) under h) (λ h. ≤ℤ_trans d headroom (pos 0) room h)
        λ _ _ _.
          le-min (min_ℤ discount headroom) subtotal d (le-min discount headroom d asked room) under
