-- ===== src/Env.antt =====
-- What the code takes from its platform: hashing, letter case, JSON text and the arithmetic of
-- 64-bit floats. None of it is in the repository, so it is a parameter of the model.
use smmfalcron.Prelude.{List, String, Bool, Option, true, ◌≡◌, ◌≢◌, suc, ℕ}
use smmfalcron.Prelude.Int.{ℤ, ◌≤ℤ◌, pos}
use smmfalcron.Models.{Float, Extra}

-- Python's operators on floats, and the conversions to and from integers that the code calls.
pub record Floats : Type 0 where
  -- `float(n)`, also where an integer meets a float in an operator
  pub of_int : ℤ → Float
  pub add : Float → Float → Float
  pub mul : Float → Float → Float
  pub div : Float → Float → Float
  -- `max(a, b)`, `min(a, b)`
  pub larger : Float → Float → Float
  pub smaller : Float → Float → Float
  pub le : Float → Float → Bool
  -- `int(math.ceil(x))`, `int(math.floor(x))`, `int(round(x))`, `int(x)`
  pub ceil : Float → ℤ
  pub floor : Float → ℤ
  pub round : Float → ℤ
  pub trunc : Float → ℤ
  -- the truth value of a float, as in `percent or 0.0`
  pub is_zero : Float → Bool
  -- `math.isfinite(x)`
  pub is_finite : Float → Bool

pub record Env : Type 0 where
  -- `hashlib.sha256(s.encode("utf-8")).hexdigest()`
  pub sha256_hex : String → String
  -- `hashlib.sha256(s.encode("utf-8")).digest()`
  pub sha256_bytes : String → List ℕ
  -- `hashlib.sha1(s.encode("utf-8")).hexdigest()`
  pub sha1_hex : String → String
  -- `s.upper()`, `s.lower()`, and whether a character is white space (`str.isspace`)
  pub upper : String → String
  pub lower : String → String
  pub is_space : ℕ → Bool
  -- `json.dumps` of an order's extra fields, with its keys sorted or in their order
  pub dumps_sorted : Extra → String
  pub dumps : Extra → String
  -- `datetime.isoformat()`
  pub isoformat : ℕ → String
  -- `str(n)` of an integer
  pub str_int : ℤ → String
  -- `f"{paise // 100:,}"`: whole rupees with commas between the thousands
  pub grouped_rupees : ℤ → String
  -- whether the database takes a number in an `Integer` column; a flush raises where it does not
  pub fits_integer : ℤ → Bool
  -- `float(s)`, and `none` where it raises
  pub parse_float : String → Option Float
  pub floats : Floats
  pub open floats use *

-- A digest is written in 64 digits.
pub record HasDigests (env : Env) : Type 0 where
  pub not_empty : (s : String) → env.sha256_hex s ≢ ""

-- What is documented of IEEE 754 arithmetic: conversion, division by a positive integer and `ceil`
-- are rounded so that they keep the order.
pub record IsOrdered (f : Floats) : Type 0 where
  pub of_int_mono : (a b : ℤ) → a ≤ℤ b → f.le (f.of_int a) (f.of_int b) ≡ true
  pub div_mono :
      (x y : Float) (n : ℕ)
      → f.le x y ≡ true
      → f.le (f.div x (f.of_int (pos (suc n)))) (f.div y (f.of_int (pos (suc n)))) ≡ true
  pub ceil_mono : (x y : Float) → f.le x y ≡ true → f.ceil x ≤ℤ f.ceil y
