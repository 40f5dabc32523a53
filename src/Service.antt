-- ===== src/Service.antt =====
-- The service as its callers see it: the handlers of the bot and of the API, and the loops of
-- app/workers.py, call one operation in one session, which is committed or rolled back
-- (`session_scope` of app/db.py), one after the other.
pub mod Kept
use smmfalcron.Prelude.{ℕ, String, Bool, Option, List, [], ◌∷◌, nat_eq}
use smmfalcron.Prelude.Int.{ℤ}
use smmfalcron.Table.{lookup}
use smmfalcron.Models.{Db, User, Order, EntryType}
use smmfalcron.Env.{Env}
use smmfalcron.Session.{Session, no_such_row, ◌>>=◌, ◌>>◌, return, read, found_or, session_scope}
use smmfalcron.Referrals.{request_payout}
use smmfalcron.Wallet.{Label, run}
use smmfalcron.Orders.Place.{Request, ProviderAnswer, place_order}
use smmfalcron.Orders.Sync.{ProviderReply, sync_order_status}
use smmfalcron.Orders.Actions.{
  request_refill, request_cancel, resolve_review_order, flag_stuck_orders,
}
use smmfalcron.Workers.{Job, run_job}
use smmfalcron.CatalogSync.Provide.{Upstream, sync_all}
use smmfalcron.Payments.Gateway.{CheckoutAnswer, GatewayEvent, GatewayStatus}
use smmfalcron.Payments.Settle.{manual_confirm}
use smmfalcron.Payments.Deposits.{DepositSettings, create_deposit}
use smmfalcron.Payments.Webhook.{handle_webhook_event, reconcile_pending, check_payment}

-- A call, with what is drawn at random and what the provider or the gateway answers to it. Orders,
-- users and payments are named by their ids.
pub data Call : Type 0 where
  move_money : EntryType → ℕ → ℤ → Label → String → Call
  place : ℕ → Request → String → ProviderAnswer → Call
  sync : ℕ → ProviderReply → Call
  refill : ℕ → ℕ → Option String → Call
  cancel : ℕ → ℕ → Bool → Call
  resolve : ℕ → Bool → String → String → Call
  flag : ℕ → ℕ → Call
  payout : ℕ → String → ℤ → String → Call
  deposit : DepositSettings → ℕ → ℤ → Option String → String → CheckoutAnswer → Call
  webhook : String → GatewayEvent → Call
  reconcile : String → (String → Option GatewayStatus) → ℕ → ℕ → ℕ → Call
  confirm : String → String → Call
  sync_catalog : (String → Upstream) → Call
  work : Job → Call
  check : String → ℕ → Option (String × (String → Option GatewayStatus)) → Call

unfoldable pub find_order : ℕ → Session Order
find_order id = do row ← read (λ db. lookup id db.orders); found_or no_such_row row

unfoldable pub find_user : ℕ → Session User
find_user id = do row ← read (λ db. lookup id db.users); found_or no_such_row row

module _ ⦃env : Env⦄ where
  unfoldable pub perform : Call → Session (Unit {0})
  perform (move_money kind uid amount label key) = do run kind uid amount label key; return tt
  perform (place uid req token answer) = do place_order uid req token answer; return tt
  perform (sync id answer) = do order ← find_order id; sync_order_status order answer; return tt
  perform (refill id uid answer) = do
    order ← find_order id
    u ← find_user uid
    request_refill order u answer
    return tt
  perform (cancel id uid confirmed) = do
    order ← find_order id
    u ← find_user uid
    request_cancel order u confirmed
    return tt
  perform (resolve id release_funds attach actor) = do
    order ← find_order id
    resolve_review_order order release_funds attach actor
    return tt
  perform (flag older_than limit) = do flag_stuck_orders older_than limit; return tt
  perform (payout uid kind amount token) = do request_payout uid kind amount token; return tt
  perform (deposit settings uid amount key token answer) = do
    u ← find_user uid
    create_deposit settings u amount key token answer
    return tt
  perform (webhook gateway event) = do handle_webhook_event gateway event; return tt
  perform (reconcile gateway fetch_status min_age max_age limit) = do
    reconcile_pending gateway fetch_status min_age max_age limit
    return tt
  perform (sync_catalog upstream) = do sync_all upstream; return tt
  perform (confirm public_id actor) = do manual_confirm public_id actor; return tt
  perform (work job) = run_job job
  perform (check public_id uid gateway) = do check_payment public_id uid gateway; return tt

  -- The database after a run of calls, each at its time of the clock.
  unfoldable pub serve : List (ℕ × Call) → Db → Db
  unfolding perform
  serve [] db = db
  serve ((now, call) ∷ calls) db =
      serve calls (session_scope (perform call) (record db { now = now })).1
