-- ===== src/Service/Kept.antt =====
-- What every call of the service keeps: whatever withstands the movements of money, the settlement of
-- payments, and writes elsewhere.
use smmfalcron.Prelude.{ℕ, refl, String, some, List, [], ◌∷◌, nat_eq}
use smmfalcron.Prelude.Int.{ℤ, pos, ltb_ℤ}
use smmfalcron.Table.{lookup}
use smmfalcron.Models.{Db, EntryType, available_paise}
use smmfalcron.Env.{Env, HasDigests}
use smmfalcron.Session.{no_such_row, wallet_error}
use smmfalcron.Security.{new_public_id}
use smmfalcron.Session.Keeps.{
  session_scope-Keeps, Keeps, then-Keeps, bind-Keeps, read-Keeps, return-Keeps, found_or-Keeps,
  raise_if-Keeps,
}
use smmfalcron.Referrals.{request_payout, pay_out, add_payout}
use smmfalcron.Wallet.{Label, run}
use smmfalcron.Wallet.Invariant.{IsSound}
use smmfalcron.Wallet.Stable.{write-Keeps}
use smmfalcron.Orders.Kept.{
  sync_order_status-Keeps, request_refill-Keeps, request_cancel-Keeps, resolve_review_order-Keeps,
  flag_stuck_orders-Keeps,
}
use smmfalcron.Orders.PlacedKept.{place_order-Keeps}
use smmfalcron.CatalogSync.Kept.{sync_all-Keeps, Stable-Syncing}
use smmfalcron.Payments.Kept.{
  Settling, create_deposit-Keeps, handle_webhook_event-Keeps, reconcile_pending-Keeps,
  manual_confirm-Keeps, check_payment-Keeps,
}
use smmfalcron.Payments.Sound.{IsSound-Settling}
use smmfalcron.Payments.Lifecycle.{Accounts}
use smmfalcron.Payments.Final.{Accounts-Settling}
use smmfalcron.Workers.Kept.{run_job-Keeps}
use smmfalcron.Service.{
  Call, move_money, place, sync, refill, cancel, resolve, flag, payout, deposit, webhook, reconcile,
  confirm, check, sync_catalog, work, find_order, find_user, perform, serve,
}

module _ ⦃env : Env⦄ {I : Db → Type 0} (s : Settling I) where
  find_order-Keeps : (id : ℕ) → Keeps I (find_order id)
  unfolding find_order
  find_order-Keeps id =
      bind-Keeps (read-Keeps {f = λ db. lookup id db.orders}) λ row. found_or-Keeps no_such_row row

  find_user-Keeps : (id : ℕ) → Keeps I (find_user id)
  unfolding find_user
  find_user-Keeps id =
      bind-Keeps (read-Keeps {f = λ db. lookup id db.users}) λ row. found_or-Keeps no_such_row row

  pay_out-Keeps :
      (uid : ℕ) (kind : String) (amount : ℤ) (public_id : String)
      → Keeps I (pay_out uid kind amount public_id)
  unfolding pay_out
  pay_out-Keeps uid kind amount public_id = then-Keeps (s.stable.debits uid amount _ _) (
      then-Keeps
        (write-Keeps s.stable (add_payout uid kind amount public_id) (λ _. refl) (λ _. refl)
          (λ _. refl))
        return-Keeps)

  request_payout-Keeps :
      (uid : ℕ) (kind : String) (amount : ℤ) (token : String)
      → Keeps I (request_payout uid kind amount token)
  unfolding request_payout
  request_payout-Keeps uid kind amount token =
      then-Keeps
        (raise_if-Keeps (ltb_ℤ amount (pos 10_000)) (wallet_error "Minimum payout is ₹100.00"))
        (bind-Keeps (read-Keeps {f = λ db. lookup uid db.users}) λ row.
          bind-Keeps (found_or-Keeps no_such_row row) λ u.
            then-Keeps
              (raise_if-Keeps (ltb_ℤ (available_paise u) amount)
                (wallet_error "Insufficient available balance for this payout"))
              (pay_out-Keeps uid kind amount (new_public_id "PO" token)))

  run-Keeps :
      (kind : EntryType) (uid : ℕ) (amount : ℤ) (label : Label) (key : String)
      → Keeps I (run kind uid amount label key)
  unfolding run
  run-Keeps EntryType.credit uid amount label key = s.stable.credits uid amount label (some key)
  run-Keeps EntryType.debit uid amount label key = s.stable.debits uid amount label (some key)
  run-Keeps EntryType.reserve uid amount label key = s.stable.reserves uid amount label key
  run-Keeps EntryType.release uid amount label key = s.stable.releases uid amount label key
  run-Keeps EntryType.capture uid amount label key = s.stable.captures uid amount label key

  perform-Keeps : (call : Call) → Keeps I (perform call)
  unfolding perform
  perform-Keeps (move_money kind uid amount label key) =
      then-Keeps (run-Keeps kind uid amount label key) return-Keeps
  perform-Keeps (place uid req token answer) =
      then-Keeps (place_order-Keeps s.stable uid req token answer) return-Keeps
  perform-Keeps (sync id answer) =
      bind-Keeps (find_order-Keeps id)
        λ order. then-Keeps (sync_order_status-Keeps s.stable order answer) return-Keeps
  perform-Keeps (refill id uid answer) = bind-Keeps (find_order-Keeps id) λ order.
      bind-Keeps (find_user-Keeps uid)
        λ u. then-Keeps (request_refill-Keeps s.stable order u answer) return-Keeps
  perform-Keeps (cancel id uid confirmed) = bind-Keeps (find_order-Keeps id) λ order.
      bind-Keeps (find_user-Keeps uid)
        λ u. then-Keeps (request_cancel-Keeps s.stable order u confirmed) return-Keeps
  perform-Keeps (resolve id release_funds attach actor) = bind-Keeps (find_order-Keeps id) λ order.
      then-Keeps (resolve_review_order-Keeps s.stable order release_funds attach actor) return-Keeps
  perform-Keeps (flag older_than limit) =
      then-Keeps (flag_stuck_orders-Keeps s.stable older_than limit) return-Keeps
  perform-Keeps (payout uid kind amount token) =
      then-Keeps (request_payout-Keeps uid kind amount token) return-Keeps
  perform-Keeps (deposit settings uid amount key token answer) =
      bind-Keeps (find_user-Keeps uid)
        λ u. then-Keeps (create_deposit-Keeps s settings u amount key token answer) return-Keeps
  perform-Keeps (webhook gateway event) =
      then-Keeps (handle_webhook_event-Keeps s gateway event) return-Keeps
  perform-Keeps (reconcile gateway fetch_status min_age max_age limit) =
      then-Keeps (reconcile_pending-Keeps s gateway fetch_status min_age max_age limit) return-Keeps
  perform-Keeps (sync_catalog upstream) =
      then-Keeps (sync_all-Keeps upstream (Stable-Syncing s.stable)) return-Keeps
  perform-Keeps (confirm public_id actor) =
      then-Keeps (manual_confirm-Keeps s public_id actor) return-Keeps
  perform-Keeps (work job) = run_job-Keeps s job
  perform-Keeps (check public_id uid gateway) =
      then-Keeps (check_payment-Keeps s public_id uid gateway) return-Keeps

  serve-Keeps : (calls : List (ℕ × Call)) (db : Db) → I db → I (serve calls db)
  unfolding serve
  serve-Keeps [] db h = h
  serve-Keeps ((now, call) ∷ calls) db h = serve-Keeps calls _ (
      (session_scope-Keeps (perform-Keeps call)).kept (record db { now = now })
        (s.stable.elsewhere db (record db { now = now }) refl refl refl h))

module _ ⦃env : Env⦄ where
  -- Whatever calls the service is given, in any order and with any answers of the provider and the
  -- gateway, from a sound database it reaches a sound one: every user's reserved part stays between
  -- zero and the balance, every balance is the sum of the user's ledger entries, and no ledger key
  -- is used twice.
  pub serve-IsSound : (calls : List (ℕ × Call)) (db : Db) → IsSound db → IsSound (serve calls db)
  serve-IsSound calls db h = serve-Keeps IsSound-Settling calls db h

  -- Where digests are not empty, and the payments are filed by their ids and the paid ones have the
  -- ledger entry of their deposit, that holds after any calls of the service too, in any order and
  -- with any answers; every payment is still there with the same owner, amount, currency and
  -- method, and one that was paid has not changed at all.
  pub serve-Accounts :
      HasDigests env
      → (calls : List (ℕ × Call)) (db : Db) → Accounts db db
      → Accounts db (serve calls db)
  serve-Accounts digests calls db h = serve-Keeps (Accounts-Settling digests db) calls db h
