-- ===== src/Tests/ReferralTests.antt =====
-- Witnesses for the referral links, on two users of whom one has a code.
use smmfalcron.Prelude.{◌≡◌, refl, none, some, [], ◌∷◌, nat_eq}
use smmfalcron.Table.{lookup}
use smmfalcron.Models.{Db, User}
use smmfalcron.Referrals.Attribution.{record_start_hit}
use smmfalcron.Referrals.Once.{AttributedOnce, start_hit_once}
use smmfalcron.Tests.Fixtures.{test_env, alice, bob, shop}

abbrev newcomer : User
newcomer = record alice { referred_by = none }

abbrev with_link : Db
with_link = record shop {
  users = (1, newcomer) ∷ (2, record bob { referral_code = some "BOB" }) ∷ [];
}

newcomer_listed : lookup 1 with_link.users ≡ some newcomer
unfolding lookup
newcomer_listed = refl

start_hit_once_example :
    AttributedOnce newcomer with_link (record_start_hit "BOB" newcomer with_link).1
start_hit_once_example = start_hit_once "BOB" newcomer with_link newcomer_listed
