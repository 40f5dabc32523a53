-- ===== src/Referrals.antt =====
-- app/referrals.py: commissions and payouts; the modules below have its other functions.
pub mod Kept
pub mod Attribution
pub mod Applications
pub mod Snapshots
pub mod Once
use smmfalcron.Prelude.{
  ℕ, String, Bool, true, false, not, Option, none, some, List, [], ◌∷◌, ◌&&◌, ◌||◌, ◌==◌, string_eq,
  nat_eq, nat_eqb, ltb, select, length, take, map, append, if◌then◌else◌,
}
use smmfalcron.Prelude.Int.{ℤ, pos, leb_ℤ, ltb_ℤ}
use smmfalcron.Table.{lookup, Table}
use smmfalcron.Models.{
  Db, User, Order, Payment, LedgerEntry, PayoutRequest, is_completed, is_paid, available_paise,
}
use smmfalcron.Env.{Env}
use smmfalcron.Security.{new_idempotency_key, new_public_id}
use smmfalcron.Session.{
  Session, wallet_error, no_such_row, ◌>>=◌, ◌>>◌, return, read, found_or, write, raise_if,
}
use smmfalcron.Wallet.{Label, credit, debit}

-- The rows of a table, without their keys.
abbrev pub rows {ℓ κ} : {K : Type ℓ} {V : Type κ} → Table K V → List V
rows t = map (λ e. e.1) t

abbrev pub referral_label : String → String → Label
referral_label reason reference = record {
  reason = reason;
  reference_type = some "referral";
  reference_id = some reference;
  created_by = none;
  meta_json = none;
}

abbrev pub has : ℕ → List ℕ → Bool
has n [] = false
has n (k ∷ ks) = k == n || has n ks

-- `completed_ids`, in the order of the ids, which is that of the rows
abbrev pub completed_ids : ℕ → Db → List ℕ
completed_ids uid db =
    map (λ (o : Order). o.id)
      (select (λ o. o.user_id == uid && is_completed o.status) (rows db.orders))

abbrev pub paid_count : ℕ → Db → ℕ
paid_count uid db =
    length (select (λ (p : Payment). p.user_id == uid && is_paid p.status) (rows db.payments))

abbrev pub referrer_row : Option ℕ → Db → Option User
referrer_row none db = none
referrer_row (some rid) db = lookup rid db.users

abbrev pub unless_self : User → Option User → Option User
unless_self buyer none = none
unless_self buyer (some r) = if r.telegram_id == buyer.telegram_id then none else some r

-- The user who referred the buyer, if that is another user.
abbrev pub referrer_of : User → Db → Option User
referrer_of buyer db = unless_self buyer (referrer_row buyer.referred_by db)

abbrev is_some {ℓ} : {A : Type ℓ} → Option A → Bool
is_some none = false
is_some (some a) = true

-- `order.status != "completed" or order.charge_paise <= 0`
unfoldable pub earns_nothing : Order → Bool
earns_nothing order = not (is_completed order.status) || leb_ℤ order.charge_paise (pos 0)

-- `buyer.referred_by is None or payment.amount_paise <= 0`
unfoldable pub no_deposit_commission : User → Payment → Bool
no_deposit_commission buyer payment =
    not (is_some buyer.referred_by) || leb_ℤ payment.amount_paise (pos 0)

module _ ⦃env : Env⦄ where
  -- `_commission_paise`; the percents that the code passes are the literals 8.0 and 5.0
  unfoldable pub commission_paise : ℤ → ℕ → ℤ
  commission_paise amount percent =
      if leb_ℤ amount (pos 0) || nat_eqb percent 0
      then pos 0
      else env.trunc
          (env.div (env.mul (env.of_int amount) (env.of_int (pos percent))) (env.of_int (pos 100)))

  -- The credit to a referrer, where there is one and the commission is not nothing.
  unfoldable pub pay_commission : Option User → ℤ → Label → String → Session (Option LedgerEntry)
  pay_commission none amount label key = return none
  pay_commission (some r) amount label key =
      if leb_ℤ amount (pos 0)
      then return none
      else do entry ← credit r.telegram_id amount label (some key); return (some entry)

  -- What follows once the buyer's row is read.
  unfoldable pub commission_for : Option User → Order → Session (Option LedgerEntry)
  unfolding pay_commission
  commission_for none order = return none
  commission_for (some buyer) order = do
    first ← read (λ db. has order.id (take 3 (completed_ids buyer.telegram_id db)))
    referrer ← read (referrer_of buyer)
    pay_commission (if first then referrer else none) (commission_paise order.charge_paise 8)
        (referral_label (append "Referral 8% " order.public_id) order.public_id)
        (new_idempotency_key ("reford" ∷ order.public_id ∷ []))

  unfoldable pub credit_order_commission : Order → Session (Option LedgerEntry)
  unfolding commission_for
  credit_order_commission order =
      if earns_nothing order
      then return none
      else do row ← read (λ db. lookup order.user_id db.users); commission_for row order

  -- Counts the buyer's paid payments in the database. The session does not flush on its own
  -- (`autoflush=False` in app/db.py), so the payment that is being settled is not among them.
  unfoldable pub credit_deposit_commission : User → Payment → Session (Option LedgerEntry)
  unfolding pay_commission
  credit_deposit_commission buyer payment =
      if no_deposit_commission buyer payment then return none else do
        paid ← read (paid_count buyer.telegram_id)
        referrer ← read (referrer_of buyer)
        pay_commission (if ltb 1 paid then none else referrer)
            (commission_paise payment.amount_paise 5)
            (referral_label (append "Referral 5% first deposit " payment.public_id)
              payment.public_id)
            (new_idempotency_key ("refdep" ∷ env.str_int (pos buyer.telegram_id) ∷ []))

  abbrev payout_label : String → String → Label
  payout_label kind public_id = record {
    reason = append "Payout request " public_id;
    reference_type = some "payout";
    reference_id = some public_id;
    created_by = none;
    meta_json = some kind;
  }

  abbrev pub add_payout : ℕ → String → ℤ → String → Db → Db
  add_payout uid kind amount public_id db =
      let request : PayoutRequest = record {
        public_id = public_id;
        user_id = uid;
        kind = kind;
        amount_paise = amount;
        status = "pending";
        created_at = db.now;
      } in
      record db { payouts = request ∷ db.payouts }

  -- The debit and the request's row, once the balance is known to cover it.
  unfoldable pub pay_out : ℕ → String → ℤ → String → Session (String × ℤ)
  pay_out uid kind amount public_id = do
    debit uid amount (payout_label kind public_id)
        (some (new_idempotency_key ("payout" ∷ public_id ∷ [])))
    write (add_payout uid kind amount public_id)
    return (public_id, amount)

  -- `request_payout`; `token` is the random part of the public id.
  unfoldable pub request_payout : ℕ → String → ℤ → String → Session (String × ℤ)
  request_payout uid kind amount token = do
    raise_if (ltb_ℤ amount (pos 10_000)) (wallet_error "Minimum payout is ₹100.00")
    row ← read (λ db. lookup uid db.users)
    u ← found_or no_such_row row
    raise_if (ltb_ℤ (available_paise u) amount)
        (wallet_error "Insufficient available balance for this payout")
    pay_out uid kind amount (new_public_id "PO" token)
