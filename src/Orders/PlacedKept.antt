-- ===== src/Orders/PlacedKept.antt =====
-- Placing an order (`place_order` of app/orders.py) keeps whatever is stable, whatever the provider answers.
use smmfalcron.Prelude.{
  inl, inr, Bool-cases, select, ℕ, ◌≡◌, refl, String, true, false, Option, none, some, List, nat_eq,
  string_eq, ◌==◌, not, nat_eqb,
}
use smmfalcron.Prelude.Int.{ℤ, pos, ltb_ℤ, leb_ℤ}
use smmfalcron.Table.{lookup}
use smmfalcron.Referrals.{rows}
use smmfalcron.Models.{
  Reseller, is_active_panel, Db, Order, OrderStatus, Service, Extra, IdempotencyRecord, is_failed,
  available_paise,
}
use smmfalcron.Env.{Env}
use smmfalcron.Session.{permission_error, insufficient_funds, order_error, no_such_row}
use smmfalcron.Session.Keeps.{
  Keeps, then-Keeps, bind-Keeps, read-Keeps, return-Keeps, found_or-Keeps, raise_if-Keeps, if-Keeps,
  one_or_none-Keeps,
}
use smmfalcron.Wallet.{lock_user}
use smmfalcron.Wallet.Stable.{Stable, write-Keeps}
use smmfalcron.Pricing.Quotes.{PriceQuote}
use smmfalcron.Orders.Books.{record_event-Keeps, fail_and_release-Keeps}
use smmfalcron.Catalog.{assert_orders_open, is_kill_on, get_service}
use smmfalcron.Orders.QuoteKept.{validate_link-Keeps, validate_extra-Keeps, quote_order-Keeps}
use smmfalcron.Referrals.Kept.{audit-Keeps}
use smmfalcron.Orders.Place.{
  ProviderAnswer, accepted, refused, crashed, Request, use_coupon, link_reseller, after_answer,
  reserve_and_submit, create_order, insert_order, new_order, order_of, order_by, submit, is_none,
  order_key, provider_active, place_order, has_key, add_link, load_idempotent_order, resume,
  resume_or_create,
}

module _ ⦃env : Env⦄ {I : Db → Type 0} (s : Stable I) where
  use_coupon-Keeps :
      (uid : ℕ) (order : Order) (code : Option String) → Keeps I (use_coupon uid order code)
  unfolding use_coupon
  use_coupon-Keeps uid order none = return-Keeps
  use_coupon-Keeps uid order (some code) =
      if-Keeps (code == "") return-Keeps (write-Keeps s _ (λ _. refl) (λ _. refl) (λ _. refl))

  after_answer-Keeps :
      (uid : ℕ) (order : Order) (charge : ℤ) (answer : ProviderAnswer)
      → Keeps I (after_answer uid order charge answer)
  unfolding after_answer
  after_answer-Keeps uid order charge (refused true message) =
      bind-Keeps (record_event-Keeps s _ OrderStatus.review _)
        λ held. then-Keeps (audit-Keeps s _ _ _ _) return-Keeps
  after_answer-Keeps uid order charge (refused false message) =
      fail_and_release-Keeps s uid order charge _ _
  after_answer-Keeps uid order charge crashed = fail_and_release-Keeps s uid order charge _ _
  after_answer-Keeps uid order charge (accepted external_id) =
      then-Keeps (s.captures uid charge _ _) (record_event-Keeps s _ OrderStatus.processing _)

  pub reserve_and_submit-Keeps :
      (uid : ℕ) (order : Order) (quote : PriceQuote) (answer : ProviderAnswer)
      → Keeps I (reserve_and_submit uid order quote answer)
  unfolding reserve_and_submit
  reserve_and_submit-Keeps uid order quote answer =
      then-Keeps (s.reserves uid quote.charge_paise _ _) (
        bind-Keeps (record_event-Keeps s order OrderStatus.awaiting_provider _) λ waiting.
          then-Keeps (use_coupon-Keeps uid waiting quote.coupon_code)
            (after_answer-Keeps uid waiting quote.charge_paise answer))

  lock_user-Keeps : (uid : ℕ) → Keeps I (lock_user uid)
  unfolding lock_user
  lock_user-Keeps uid =
      bind-Keeps (read-Keeps {f = λ db. lookup uid db.users}) λ row. found_or-Keeps no_such_row row

  order_by-Keeps : (oid : Option ℕ) (by_key : List Order) → Keeps I (order_by oid by_key)
  order_by-Keeps none by_key = one_or_none-Keeps by_key
  order_by-Keeps (some oid) by_key =
      if-Keeps (nat_eqb oid 0) (one_or_none-Keeps by_key)
        (read-Keeps {f = λ db. lookup oid db.orders})

  order_of-Keeps :
      (r : Option IdempotencyRecord) (by_key : List Order) → Keeps I (order_of r by_key)
  order_of-Keeps none by_key = one_or_none-Keeps by_key
  order_of-Keeps (some r) by_key = order_by-Keeps r.order_id by_key

  add_link-users :
      (r : Option Reseller) (uid : ℕ) (order : Order) (quote : PriceQuote) (db : Db)
      → (add_link r uid order quote db).users ≡ db.users
  add_link-users none uid order quote db = refl
  add_link-users (some r) uid order quote db = elim (Bool-cases (is_active_panel r.status)) [
    | inl on ↦ rw on refl
    | inr off ↦ rw off refl
  ]

  add_link-ledger :
      (r : Option Reseller) (uid : ℕ) (order : Order) (quote : PriceQuote) (db : Db)
      → (add_link r uid order quote db).ledger ≡ db.ledger
  add_link-ledger none uid order quote db = refl
  add_link-ledger (some r) uid order quote db = elim (Bool-cases (is_active_panel r.status)) [
    | inl on ↦ rw on refl
    | inr off ↦ rw off refl
  ]

  add_link-payments :
      (r : Option Reseller) (uid : ℕ) (order : Order) (quote : PriceQuote) (db : Db)
      → (add_link r uid order quote db).payments ≡ db.payments
  add_link-payments none uid order quote db = refl
  add_link-payments (some r) uid order quote db = elim (Bool-cases (is_active_panel r.status)) [
    | inl on ↦ rw on refl
    | inr off ↦ rw off refl
  ]

  link_reseller-Keeps :
      (uid : ℕ) (order : Order) (quote : PriceQuote) → Keeps I (link_reseller uid order quote)
  unfolding link_reseller
  link_reseller-Keeps uid order quote =
      write-Keeps s (λ db. add_link (lookup uid db.resellers) uid order quote db)
        (λ db. add_link-users (lookup uid db.resellers) uid order quote db)
        (λ db. add_link-ledger (lookup uid db.resellers) uid order quote db)
        (λ db. add_link-payments (lookup uid db.resellers) uid order quote db)

  load_idempotent_order-Keeps : (key : String) → Keeps I (load_idempotent_order key)
  unfolding load_idempotent_order
  load_idempotent_order-Keeps key =
      bind-Keeps (read-Keeps {f = λ db. lookup key db.idempotency}) λ r.
        bind-Keeps (read-Keeps {f = λ db. select (has_key key) (rows db.orders)})
          λ by_key. order_of-Keeps r by_key

  module _ (uid : ℕ) (req : Request) (link : String) (extra : Extra) (svc : Service)
      (quote : PriceQuote) (token : String) (answer : ProviderAnswer) where
    create_order-Keeps :
        (key : String) → Keeps I (create_order uid req link extra svc quote key token answer)
    unfolding create_order
    create_order-Keeps key = bind-Keeps (lock_user-Keeps uid) λ u.
        then-Keeps
          (raise_if-Keeps (ltb_ℤ (available_paise u) quote.charge_paise) insufficient_funds)
          (bind-Keeps
            (read-Keeps
              {f = λ db. new_order db.now db.next_order_id token uid req link extra svc quote key})
            λ order.
              then-Keeps
                (write-Keeps s (insert_order order key) (λ _. refl) (λ _. refl) (λ _. refl))
                (then-Keeps (link_reseller-Keeps uid order quote)
                  (reserve_and_submit-Keeps uid order quote answer)))

    resume-Keeps :
        (key : String) (now : ℕ) (earlier : Option Order)
        → Keeps I (resume uid req link extra svc quote key token answer now earlier)
    unfolding resume
    resume-Keeps key now none = create_order-Keeps key
    resume-Keeps key now (some earlier) =
        if-Keeps (is_failed earlier.status) (create_order-Keeps _) (return-Keeps {a = earlier})

    pub resume_or_create-Keeps :
        (key : String) → Keeps I (resume_or_create uid req link extra svc quote key token answer)
    unfolding resume_or_create
    resume_or_create-Keeps key =
        bind-Keeps (load_idempotent_order-Keeps key) λ existing.
          bind-Keeps (read-Keeps {f = λ db. db.now}) λ now. resume-Keeps key now existing

  assert_orders_open-Keeps : Keeps I assert_orders_open
  unfolding assert_orders_open
  assert_orders_open-Keeps =
      bind-Keeps (read-Keeps {f = is_kill_on "global_maintenance"}) λ maintenance.
        then-Keeps
          (raise_if-Keeps maintenance
            (permission_error "FALARON is in maintenance. Please try again later."))
          (bind-Keeps (read-Keeps {f = is_kill_on "read_only"}) λ read_only.
            then-Keeps
              (raise_if-Keeps read_only (permission_error "The platform is in read-only mode."))
              (bind-Keeps (read-Keeps {f = is_kill_on "kill_new_orders"}) λ paused.
                raise_if-Keeps paused (permission_error "New orders are temporarily paused.")))

  submit-Keeps :
      (uid : ℕ) (req : Request) (svc : Service) (token : String) (answer : ProviderAnswer)
      → Keeps I (submit uid req svc token answer)
  unfolding submit
  submit-Keeps uid req svc token answer = bind-Keeps (validate_link-Keeps req.link) λ link.
      bind-Keeps (validate_extra-Keeps svc req.extra) λ extra.
        bind-Keeps (quote_order-Keeps svc.id req.quantity (some uid) req.coupon_code) λ quote.
          then-Keeps
            (raise_if-Keeps (leb_ℤ quote.charge_paise (pos 0))
              (order_error "Quoted charge is invalid"))
            (bind-Keeps (read-Keeps {f = λ db. db.now}) λ now. then-Keeps (lock_user-Keeps uid) (
              resume_or_create-Keeps uid req link extra svc quote token answer
                (order_key now uid req link extra svc quote)))

  pub place_order-Keeps :
      (uid : ℕ) (req : Request) (token : String) (answer : ProviderAnswer)
      → Keeps I (place_order uid req token answer)
  unfolding place_order
  place_order-Keeps uid req token answer =
      bind-Keeps (read-Keeps {f = λ db. lookup uid db.users}) λ row.
        bind-Keeps (found_or-Keeps no_such_row row) λ u.
          then-Keeps (raise_if-Keeps u.is_banned (order_error "This account is suspended")) (
            then-Keeps
              (raise_if-Keeps (is_none u.terms_accepted_at)
                (order_error "Please accept the Terms of Service and Privacy Policy first"))
              (then-Keeps assert_orders_open-Keeps (
                bind-Keeps (read-Keeps {f = get_service req.service_id}) λ offered.
                  bind-Keeps (found_or-Keeps (order_error "Service is not available") offered)
                    λ svc.
                      then-Keeps
                        (raise_if-Keeps (not svc.is_active)
                          (order_error "Service is not available"))
                        (bind-Keeps (read-Keeps {f = provider_active svc}) λ online.
                          then-Keeps
                            (raise_if-Keeps (not online) (order_error "Provider is offline"))
                            (submit-Keeps uid req svc token answer)))))
