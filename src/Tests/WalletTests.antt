-- ===== src/Tests/WalletTests.antt =====
-- Witnesses for the properties of the wallet.
use smmfalcron.Prelude.{
  ◌≡◌, refl, ◌≢◌, String, some, arith, nat_eq, string_eq, if◌then◌else◌, truncate,
}
use mathlib.Core.Bool.{false≢true}
use text.Mathlib.TextEquality.{eq_iff}
use smmfalcron.Prelude.Int.{pos, neg, ◌+ℤ◌, ◌-ℤ◌, leb_ℤ}
use smmfalcron.Table.{lookup, put}
use smmfalcron.Models.{Db, LedgerEntry, EntryType, available_paise}
use smmfalcron.Session.{returns, raises, insufficient_funds, ◌>>◌, Returned, Outcome}
use smmfalcron.Security.{key_or}
use smmfalcron.Wallet.{
  once, append_entry, with_balances, ledger_entry, push, payment_key, find_key, credit, debit,
  reserve, release, capture, run,
}
use smmfalcron.Wallet.Invariant.{IsSound, run-IsSound}
use smmfalcron.Wallet.Replay.{run_again, run_atomic}
use smmfalcron.Wallet.Flows.{debit_exact, reserve-capture, reserve-release, run-others}
use smmfalcron.Tests.Fixtures.{test_env, shop, alice, label, shop-IsSound}

run-IsSound_example : IsSound (run EntryType.debit 1 (pos 700) label "d1" shop).1
run-IsSound_example = run-IsSound EntryType.debit 1 (pos 700) label "d1" shop shop-IsSound

abbrev paid_in : Db
paid_in =
    push alice (pos 50_700) (pos 0)
      (ledger_entry 100 alice (pos 700) EntryType.credit label "c1" (pos 50_700) (pos 0)) shop

credit_runs : run EntryType.credit 1 (pos 700) label "c1" shop ≡ (
  returns (ledger_entry 100 alice (pos 700) EntryType.credit label "c1" (pos 50_700) (pos 0)),
  paid_in,
)
unfolding run credit once append_entry lookup put find_key truncate key_or ◌+ℤ◌
credit_runs = refl

run_again_example : run EntryType.credit 1 (pos 700) label "c1" paid_in ≡ (
  returns (ledger_entry 100 alice (pos 700) EntryType.credit label "c1" (pos 50_700) (pos 0)),
  paid_in,
)
run_again_example = run_again EntryType.credit 1 (pos 700) label "c1" shop shop-IsSound credit_runs

abbrev refusal : Outcome LedgerEntry × Db
refusal = run EntryType.debit 2 (pos 700) label "d2" shop

debit_refused : refusal ≡ (raises insufficient_funds, refusal.1)
unfolding run debit once append_entry lookup put find_key truncate key_or ◌+ℤ◌ ◌-ℤ◌
debit_refused = refl

run_atomic_example : refusal.1 ≡ shop
run_atomic_example =
    run_atomic EntryType.debit 2 (pos 700) label "d2" shop shop-IsSound debit_refused

debit_exact_example :
    let b = pos 50_000 -ℤ pos 700 in
    let entry =
      ledger_entry 100 alice
        (neg (pos 700))
        EntryType.debit
        label
        (payment_key "debit" (pos 700) label (some "d1") alice)
        b
        (pos 0) in
    debit 1 (pos 700) label (some "d1") shop ≡ (
      if leb_ℤ (pos 700) (available_paise alice)
      then (returns entry, push alice b (pos 0) entry shop)
      else (raises insufficient_funds, shop))
unfolding lookup find_key key_or
debit_exact_example =
    debit_exact 1 alice (pos 700) label (some "d1") shop shop-IsSound refl (omega arith) refl

keys_differ : ◌≢◌ {A = String} "r1" "c1"
keys_differ e = false≢true ((eq_iff "r1" "c1").1 e)

reserve-capture_example :
    let (out, after) = (reserve 1 (pos 700) label "r1" >> capture 1 (pos 700) label "c1") shop in
    Returned out
    × (lookup 1 after.users ≡ some (with_balances shop alice (pos 50_000 -ℤ pos 700) (pos 0)))
unfolding lookup find_key ◌-ℤ◌
reserve-capture_example =
    reserve-capture 1 alice (pos 700) label label "r1" "c1" shop shop-IsSound refl (omega arith)
      (omega arith) keys_differ refl refl

reserve-release_example :
    let (out, after) = (reserve 1 (pos 700) label "r1" >> release 1 (pos 700) label "c1") shop in
    Returned out × (lookup 1 after.users ≡ some (with_balances shop alice (pos 50_000) (pos 0)))
unfolding lookup find_key ◌-ℤ◌
reserve-release_example =
    reserve-release 1 alice (pos 700) label label "r1" "c1" shop shop-IsSound refl (omega arith)
      (omega arith) keys_differ refl refl

run-others_example :
    lookup 2 (run EntryType.debit 1 (pos 700) label "d1" shop).1.users ≡ lookup 2 shop.users
run-others_example =
    run-others 2 EntryType.debit 1 (pos 700) label "d1" shop shop-IsSound (omega arith)
