-- ===== src/Orders/Refund.antt =====
-- The refunds of app/orders.py: what is left of a partly delivered order, and what is still owed for
-- one that came to nothing.
use smmfalcron.Prelude.{
  ℕ, String, Bool, true, false, not, Option, none, some, [], ◌∷◌, ◌||◌, string_eq, nat_eq, append,
  join_with, if◌then◌else◌,
}
use smmfalcron.Prelude.Int.{ℤ, pos, ◌-ℤ◌, leb_ℤ, max_ℤ, min_ℤ}
use smmfalcron.Table.{lookup, put}
use smmfalcron.Models.{User, Db, Order, OrderStatus, IdempotencyRecord, is_refunded}
use smmfalcron.Env.{Env}
use smmfalcron.Security.{new_idempotency_key}
use smmfalcron.Session.{Session, ◌>>=◌, ◌>>◌, return, read, write}
use smmfalcron.Wallet.{credit}
use smmfalcron.Orders.Steps.{record_event, order_label, refunded_so_far}

-- `max(0, int(order.charge_paise) - await refunded_so_far(session, order))`
abbrev pub owed_for : Order → Db → ℤ
owed_for order db = max_ℤ (pos 0) (order.charge_paise -ℤ refunded_so_far order db)

abbrev pub refund_record : ℕ → String → IdempotencyRecord
refund_record now key = record { key = key; scope = "refund"; order_id = none; created_at = now }

abbrev pub is_none {ℓ} : {A : Type ℓ} → Option A → Bool
is_none none = true
is_none (some a) = false

-- `remains <= 0 or order.quantity <= 0`
unfoldable pub nothing_left : Order → ℤ → Bool
nothing_left order remains = leb_ℤ remains (pos 0) || leb_ℤ order.quantity (pos 0)

-- A refund was paid already, is not due, or has no one to go to.
unfoldable pub no_partial_refund : Option IdempotencyRecord → ℤ → Option User → Bool
no_partial_refund already refund owner =
    not (is_none already) || (leb_ℤ refund (pos 0) || is_none owner)

unfoldable pub no_refund : Option IdempotencyRecord → Option User → Order → ℤ → Bool
no_refund already owner order owed =
    not (is_none already)
    || (is_none owner || (leb_ℤ order.charge_paise (pos 0) || leb_ℤ owed (pos 0)))

module _ ⦃env : Env⦄ where
  -- A credit for the order, and the record that it was paid.
  unfoldable pub pay_back : Order → ℤ → String → String → Session (Unit {0})
  pay_back order amount reason key = do
    credit order.user_id amount (order_label reason order) (some key)
    write (λ db. record db { idempotency = put key (refund_record db.now key) db.idempotency })

  -- `int(round(charge * min(1.0, max(0.0, remains / float(quantity)))))`
  unfoldable pub partial_share : Order → ℤ → ℤ
  partial_share order remains =
      let share = env.div (env.of_int remains) (env.of_int order.quantity) in
      env.round (
        env.mul (env.of_int order.charge_paise)
          (env.smaller (env.of_int (pos 1)) (env.larger (env.of_int (pos 0)) share)))

  abbrev pub partial_key : Order → String
  partial_key order = new_idempotency_key ("partial" ∷ order.public_id ∷ [])

  -- `_maybe_partial_refund`
  unfoldable pub maybe_partial_refund : Order → ℤ → Session (Unit {0})
  maybe_partial_refund order remains = if nothing_left order remains then return tt else do
    already ← read (λ db. lookup (partial_key order) db.idempotency)
    refund ← read (λ db. min_ℤ (partial_share order remains) (owed_for order db))
    owner ← read (λ db. lookup order.user_id db.users)
    (if no_partial_refund already refund owner
        then return tt
        else pay_back order refund (append "Partial refund " order.public_id) (partial_key order))

  abbrev pub refund_key : Order → String → String
  refund_key order word = new_idempotency_key ("refund" ∷ order.public_id ∷ word ∷ [])

  abbrev pub refunded_note : String → Order → String
  refunded_note word order = join_with "" ("Refund " ∷ order.public_id ∷ " (" ∷ word ∷ ")" ∷ [])

  -- The refund of what is owed, and the event unless the order is "refunded" already.
  unfoldable pub pay_refund : Order → ℤ → OrderStatus → String → Session Order
  pay_refund order owed mapped word = do
    pay_back order owed (refunded_note word order) (refund_key order word)
    (if is_refunded mapped
        then return order
        else record_event order OrderStatus.refunded (some (append "auto-refund after " word)))

  -- `_refund_if_needed`; `word` is the text of the status `mapped`.
  unfoldable pub refund_if_needed : Order → OrderStatus → String → Session Order
  refund_if_needed order mapped word = do
    already ← read (λ db. lookup (refund_key order word) db.idempotency)
    owner ← read (λ db. lookup order.user_id db.users)
    owed ← read (owed_for order)
    (if no_refund already owner order owed then return order else pay_refund order owed mapped word)
