-- ===== src/Prelude/Equality.antt =====
-- Equality of keys as an interface, at numbers and at texts.
use Prim.Native.Nat.{ℕ}
use Prim.Native.String.{String}
use mathlib.Core.Path.{◌≡◌, refl}
use mathlib.Core.Logic.{◌≢◌, ◌↔◌}
use mathlib.Core.Bool.{Bool, true, false}
use native.Mathlib.Omega.{arith}
use text.Mathlib.Text.{◌==◌ as str_eqb}
use text.Mathlib.TextEquality.{eq_iff}
use smmfalcron.Prelude.Tests.{nat_eqb, nat_eqb_iff}

-- A key's test for equality, and that it is right.
pub record Eq {κ} (K : Type κ) : Type κ where
  pub same : K → K → Bool
  pub same_iff : (j k : K) → (same j k ≡ true) ↔ (j ≡ k)

not_true : (b : Bool) → (b ≡ true → ⊥) → b ≡ false
not_true true h = absurd (h refl)
not_true false h = refl

module _ {κ} {K : Type κ} ⦃keys : Eq K⦄ where
  infix 50 ◌==◌
  abbrev pub ◌==◌ : K → K → Bool
  j == k = keys.same j k

  pub ==_iff : (j k : K) → ((j == k) ≡ true) ↔ (j ≡ k)
  ==_iff j k = keys.same_iff j k

  pub ==_refl : (k : K) → (k == k) ≡ true
  ==_refl k = (keys.same_iff k k).1 refl

  pub ne_==_false : (j k : K) → j ≢ k → (j == k) ≡ false
  ne_==_false j k h = not_true (j == k) (λ p. h ((keys.same_iff j k).0 p))

  pub ==_symm : (j k : K) → (j == k) ≡ (k == j)
  ==_symm j k = ground (arith, keys.same_iff j k, keys.same_iff k j)

-- Texts compare by the library's test.
instance abbrev pub string_eq : Eq String
string_eq = record { same_iff = eq_iff; same = str_eqb }

instance abbrev pub nat_eq : Eq ℕ
nat_eq = record { same_iff = nat_eqb_iff; same = nat_eqb }
