-- ===== src/Referrals/Once.antt =====
-- A /start link of app/referrals.py attributes a visitor at most once, and never to the visitor.
use mathlib.Core.Path.{subst}
use smmfalcron.Prelude.{
  ℕ, ◌≡◌, ◌≢◌, ◌⊎◌, refl, inl, inr, String, true, false, Option, none, some, arith, nat_eq,
  string_eq, ◌==◌, ==_refl, ne_==_false, sym, ap, ◌∙◌, select, Bool-cases,
}
use smmfalcron.Table.{lookup, lookup-adjust}
use smmfalcron.Models.{Db, User}
use smmfalcron.Env.{Env}
use smmfalcron.Session.Keeps.{
  Keeps, bind-Keeps, read-Keeps, return-Keeps, if-Keeps, one_or_none-Keeps, bind-Passes,
}
use smmfalcron.Referrals.{rows}
use smmfalcron.Referrals.Attribution.{
  has_code, change_user, referred, is_no_one, attribute, normal_code, user_by_referral_code,
  record_start_hit,
}

-- What a hit may do to the visitor's row and to the others.
pub record AttributedOnce (visitor : User) (before after : Db) : Type 0 where
  pub others :
      (uid : ℕ) → uid ≢ visitor.telegram_id → lookup uid after.users ≡ lookup uid before.users
  pub own :
      (v : User) × (lookup visitor.telegram_id after.users ≡ some v)
      × (v.cached_balance_paise ≡ visitor.cached_balance_paise)
      × (v.cached_reserved_paise ≡ visitor.cached_reserved_paise)
      × ((v.referred_by ≡ visitor.referred_by)
          ⊎ ((visitor.referred_by ≡ none)
              × ((rid : ℕ) × (v.referred_by ≡ some rid) × (rid ≢ visitor.telegram_id))))

module _ (visitor : User) (db : Db) (at : lookup visitor.telegram_id db.users ≡ some visitor) where
  untouched : (after : Db) → after.users ≡ db.users → AttributedOnce visitor db after
  untouched after e = record {
    others = λ uid ne. subst (λ t. lookup uid t ≡ lookup uid db.users) (sym e) refl;
    own = (
      visitor,
      subst (λ t. lookup visitor.telegram_id t ≡ some visitor) (sym e) at,
      refl,
      refl,
      inl refl,
    );
  }

  attributed :
      (rid : ℕ)
      → visitor.referred_by ≡ none
      → rid ≢ visitor.telegram_id
      → (after : Db) → after.users ≡ (change_user visitor.telegram_id (referred rid) db).users
      → AttributedOnce visitor db after
  attributed rid nobody other after e = record {
    others = λ uid ne.
        subst (λ t. lookup uid t ≡ lookup uid db.users) (sym e)
          (lookup-adjust visitor.telegram_id uid (referred rid db.now) db.users
            ∙ rw (ne_==_false visitor.telegram_id uid (λ same. ne (sym same))) refl);
    own = (
      referred rid db.now visitor,
      subst (λ t. lookup visitor.telegram_id t ≡ some (referred rid db.now visitor)) (sym e)
          (lookup-adjust visitor.telegram_id visitor.telegram_id (referred rid db.now) db.users
            ∙ rw (==_refl visitor.telegram_id, at) refl),
      refl,
      refl,
      inr (nobody, (rid, refl, other)),
    );
  }

  none_before : (o : Option ℕ) → is_no_one o ≡ true → o ≡ none
  none_before none e = refl
  none_before (some rid) e = ground (arith, e)

  attribute_first :
      (code : String) (r : User)
      → (r.telegram_id == visitor.telegram_id) ≡ false
      → is_no_one visitor.referred_by ≡ true
      → (attribute code visitor (some r) db).1.users
        ≡ (change_user visitor.telegram_id (referred r.telegram_id) db).users
  unfolding attribute
  attribute_first code r other first = rw (other, first) refl

  attribute_later :
      (code : String) (r : User)
      → (r.telegram_id == visitor.telegram_id) ≡ false
      → is_no_one visitor.referred_by ≡ false
      → (attribute code visitor (some r) db).1.users ≡ db.users
  unfolding attribute
  attribute_later code r other later = rw (other, later) refl

  attribute_self :
      (code : String) (r : User)
      → (r.telegram_id == visitor.telegram_id) ≡ true
      → (attribute code visitor (some r) db).1.users ≡ db.users
  unfolding attribute
  attribute_self code r self = rw self refl

  attribute_once :
      (code : String) (r : Option User) → AttributedOnce visitor db (attribute code visitor r db).1
  attribute_once code none = unfold attribute in untouched _ refl
  attribute_once code (some r) = elim (Bool-cases (r.telegram_id == visitor.telegram_id)) [
    | inl self ↦ untouched _ (attribute_self code r self)
    | inr other ↦ elim (Bool-cases (is_no_one visitor.referred_by)) [
      | inl first ↦
          attributed r.telegram_id (none_before visitor.referred_by first)
            (λ same. ground (arith, same, other)) _ (attribute_first code r other first)
      | inr later ↦ untouched _ (attribute_later code r other later)
    ]
  ]

module _ ⦃env : Env⦄ where
  user_by_referral_code-reads :
      (code : String) (db : Db) → Keeps (λ after. after ≡ db) (user_by_referral_code code)
  unfolding user_by_referral_code
  user_by_referral_code-reads code db =
      if-Keeps (normal_code code == "") (return-Keeps {a = none}) (
        bind-Keeps (read-Keeps {f = λ db. select (has_code (normal_code code)) (rows db.users)})
          λ found. one_or_none-Keeps found)

  -- A start link, whatever its code, changes no user but the visitor, and of the visitor's row
  -- neither the balance nor the reserved part; the visitor's referrer stays as it is, or it was
  -- none and becomes another user than the visitor. That holds where the visitor is the user of the
  -- id, whether the code is known or not.
  pub start_hit_once :
      (code : String) (visitor : User) (db : Db)
      → lookup visitor.telegram_id db.users ≡ some visitor
      → AttributedOnce visitor db (record_start_hit code visitor db).1
  unfolding record_start_hit
  start_hit_once code visitor db at = elim (Bool-cases (normal_code code == "")) [
    | inl blank ↦ rw blank (untouched visitor db at db refl)
    | inr named ↦ rw named (
        bind-Passes {I = AttributedOnce visitor db} {J = λ after. after ≡ db}
          (user_by_referral_code (normal_code code)) (attribute (normal_code code) visitor) db
          (λ after same. untouched visitor db at after (ap (λ (d : Db). d.users) same))
          ((user_by_referral_code-reads (normal_code code) db).kept db refl)
          (λ r after same.
            subst (λ d. AttributedOnce visitor db (attribute (normal_code code) visitor r d).1)
              (sym same) (attribute_once visitor db at (normal_code code) r)))
  ]
