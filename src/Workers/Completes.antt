-- ===== src/Workers/Completes.antt =====
-- How a round of the order loop of app/workers.py ends, whatever the provider answers and whichever
-- sync raises.
use smmfalcron.Prelude.{
  ℕ, ◌≡◌, ◌⊎◌, true, false, refl, ◌≤◌, suc, arith, inl, inr, List, [], ◌∷◌, length, length-take-le,
  Bool-cases,
}
use smmfalcron.Models.{Db, Order, OrderStatus}
use smmfalcron.Env.{Env}
use smmfalcron.Session.{
  Outcome, Error, Ensures, returns, raises, and_then, return, ◌>>=◌, caught, is_fatal,
}
use smmfalcron.Orders.Sync.{ProviderReply, same_status, sync_order_status}
use smmfalcron.Orders.Actions.{list_open_orders}
use smmfalcron.Orders.SameBuyer.{SameBuyer, sync_order_status-SameBuyer}
use smmfalcron.Workers.{
  Notice, Round, is_notified, add_notice, sync_one, sync_listed, sync_open_orders_once,
}

-- Who is told of what, from the orders listed: of each order its buyer at most, under its id for
-- people, and of a new status that users are told of.
pub data Told : List Order → List Notice → Type 0 where
  none_left : Told [] []
  silent :
      (order : Order) {orders : List Order} {notices : List Notice}
      → Told orders notices
      → Told (order ∷ orders) notices
  tells :
      (order : Order) (status : OrderStatus) {orders : List Order} {notices : List Notice}
      → is_notified status ≡ true
      → same_status status order.status ≡ false
      → Told orders notices
      → Told (order ∷ orders) ((order.user_id, order.public_id, status) ∷ notices)

-- The notices are in order, no more than orders moved, and these no more than were listed.
pub record IsWithin (listed : List Order) (round : Round) : Type 0 where
  pub told : Told listed round.1
  pub notices_le : length round.1 ≤ round.0
  pub updated_le : round.0 ≤ length listed

IsWithin-tells :
    (before after : Order) (orders : List Order) (round : Round)
    → after.user_id ≡ before.user_id
    → after.public_id ≡ before.public_id
    → is_notified after.status ≡ true
    → same_status after.status before.status ≡ false
    → IsWithin orders round
    → IsWithin
        (before ∷ orders)
        (suc round.0, (after.user_id, after.public_id, after.status) ∷ round.1)
IsWithin-tells before after orders round buyer id notified moved h = record {
  told = rw (buyer, id) (tells before after.status notified moved h.told);
  notices_le = omega (arith, h.notices_le);
  updated_le = omega (arith, h.updated_le);
}

add_notice-IsWithin :
    (before : Order) (out : Outcome Order) (db : Db) (orders : List Order) (round : Round)
    → Ensures (SameBuyer before) (out, db)
    → IsWithin orders round
    → IsWithin (before ∷ orders) (add_notice before out round)
unfolding add_notice
add_notice-IsWithin before (raises e) db orders round same h = record {
  told = silent before h.told;
  notices_le = h.notices_le;
  updated_le = omega (arith, h.updated_le);
}
add_notice-IsWithin before (returns after) db orders round (buyer, id) h =
    elim (Bool-cases (same_status after.status before.status)) [
      | inl same ↦ rw same (record {
        told = silent before h.told;
        notices_le = h.notices_le;
        updated_le = omega (arith, h.updated_le);
      })
      | inr moved ↦ elim (Bool-cases (is_notified after.status)) [
        | inl notified ↦
            rw (moved, notified)
              (IsWithin-tells before after orders round buyer id notified moved h)
        | inr quiet ↦
            rw (moved, quiet)
              (record {
                told = silent before h.told;
                notices_le = omega (arith, h.notices_le);
                updated_le = omega (arith, h.updated_le);
              })
      ]
    ]

module _ ⦃env : Env⦄ (answers : ℕ → ProviderReply) where
  -- The orders synced one after the other, each as if alone, and what each writes kept.
  unfoldable pub sync_in_turn : List Order → Db → Db
  sync_in_turn [] db = db
  sync_in_turn (order ∷ orders) db =
      sync_in_turn orders (sync_order_status order (answers order.id) db).1

  -- The sync of one of the orders, when its turn comes, makes the session unusable.
  unfoldable pub Breaks : Error → List Order → Db → Type 0
  Breaks e [] db = ⊥
  Breaks e (order ∷ orders) db =
      (((sync_order_status order (answers order.id) db).0 ≡ raises e) × (is_fatal e ≡ true))
      ⊎ Breaks e orders (sync_order_status order (answers order.id) db).1

  -- All orders had their turn.
  pub record RunsThrough (orders : List Order) (db : Db) (end : Outcome Round × Db) : Type 0 where
    pub round : Round
    pub returned : end.0 ≡ returns round
    pub written : end.1 ≡ sync_in_turn orders db
    pub within : IsWithin orders round

  pub record BreaksOff (orders : List Order) (db : Db) (end : Outcome Round × Db) : Type 0 where
    pub error : Error
    pub raised : end.0 ≡ raises error
    pub broken : Breaks error orders db

  abbrev Ends : List Order → Db → Outcome Round × Db → Type 0
  Ends orders db end = RunsThrough orders db end ⊎ BreaksOff orders db end

  -- What is left of a list once the first sync did not break off.
  go_on :
      (order : Order) (orders : List Order) (db : Db) (out : Outcome Order)
      (end : Outcome Round × Db)
      → Ensures (SameBuyer order) (out, (sync_order_status order (answers order.id) db).1)
      → Ends orders (sync_order_status order (answers order.id) db).1 end
      → Ends (order ∷ orders) db (and_then end.0 (λ r. return (add_notice order out r)) end.1)
  unfolding sync_in_turn Breaks
  go_on order orders db out end same (inl h) = inl record {
    round = add_notice order out h.round;
    returned = rw h.returned refl;
    written = rw h.returned h.written;
    within =
        add_notice-IsWithin order out (sync_order_status order (answers order.id) db).1 orders
          h.round same h.within;
  }
  go_on order orders db out end same (inr h) =
      inr record { error = h.error; raised = rw h.raised refl; broken = inr h.broken }

  one_more :
      (order : Order) (orders : List Order) (db : Db) (out : Outcome Order)
      → (sync_order_status order (answers order.id) db).0 ≡ out
      → Ensures (SameBuyer order) (out, (sync_order_status order (answers order.id) db).1)
      → Ends orders
          (sync_order_status order (answers order.id) db).1
          (sync_listed answers orders (sync_order_status order (answers order.id) db).1)
      → Ends (order ∷ orders) db (
          and_then
            (caught out)
            (λ o. sync_listed answers orders >>= λ r. return (add_notice order o r))
            (sync_order_status order (answers order.id) db).1)
  unfolding caught Breaks
  one_more order orders db (returns o) e same h = go_on order orders db (returns o) _ same h
  one_more order orders db (raises x) e same h = elim (Bool-cases (is_fatal x)) [
    | inl fatal ↦ rw fatal (inr record { error = x; raised = refl; broken = inl (e, fatal) })
    | inr harmless ↦ rw harmless (go_on order orders db (raises x) _ same h)
  ]

  sync_listed-Ends :
      (orders : List Order) (db : Db) → Ends orders db (sync_listed answers orders db)
  unfolding sync_listed sync_one sync_in_turn
  sync_listed-Ends [] db = inl record {
    round = (0, []);
    returned = refl;
    written = refl;
    within = record { told = none_left; notices_le = omega arith; updated_le = omega arith };
  }
  sync_listed-Ends (order ∷ orders) db =
      one_more order orders db _ refl (sync_order_status-SameBuyer order (answers order.id) db)
        (sync_listed-Ends orders (sync_order_status order (answers order.id) db).1)

  -- Of the open orders at most 80 are listed for a round, and the round ends in one of two ways.
  -- Either it returns and is committed: the database afterwards is that of the syncs of the listed
  -- orders, one after the other, each with what it wrote, also where it raised; of each listed
  -- order at most its buyer is told, of a status that is not the listed one and that users are told
  -- of; no more orders are counted as moved than were listed, and no fewer than are told of. Or it
  -- raises and leaves the database as it was, and then the sync of a listed order, when its turn
  -- came, raised an error of the database itself; no other error of a sync ends a round.
  pub round_ends :
      (db : Db)
      → (length (list_open_orders 80 db) ≤ 80)
        × (RunsThrough (list_open_orders 80 db) db (sync_open_orders_once answers db)
            ⊎ (BreaksOff (list_open_orders 80 db) db (sync_open_orders_once answers db)
                × ((sync_open_orders_once answers db).1 ≡ db)))
  unfolding sync_open_orders_once list_open_orders
  round_ends db = (
    length-take-le 80 _,
    (elim (sync_listed-Ends (list_open_orders 80 db) db) [
      | inl h ↦ inl record {
        round = h.round;
        returned = h.returned;
        written = rw h.returned h.written;
        within = h.within;
      }
      | inr h ↦
          inr (record { error = h.error; raised = h.raised; broken = h.broken }, rw h.raised refl)
    ]),
  )
