-- ===== src/Float.antt =====
-- `f64`, as the program uses it: a type with the operations below, no law of which is assumed.
-- A property that needs a law takes it as a hypothesis.
use ferrosonic.Prelude.{ℕ, ◌-◌, ◌*◌, ◌/◌, Bool, true, ltb, leb, if◌then◌else◌}
use ferrosonic.Prelude.Int.{ℤ, pos_part}

pub record Float (F : Type 0) : Type 0 where
  -- The constant of a number of thousandths: `3.0` is `of_milli 3000`.
  pub of_milli : ℕ → F
  -- `f64::from` of an `i32`.
  pub of_ℤ : ℤ → F
  pub lt : F → F → Bool
  pub le : F → F → Bool
  pub sub : F → F → F
  pub mul : F → F → F
  pub min : F → F → F
  pub max : F → F → F
  pub is_finite : F → Bool
  -- The saturating cast `as u64`.
  pub to_u64 : F → ℕ

module _ {F : Type 0} ⦃f : Float F⦄ where
  abbrev pub milli : ℕ → F
  milli = f.of_milli

  abbrev pub int_f : ℤ → F
  int_f = f.of_ℤ

  abbrev pub lt_f : F → F → Bool
  lt_f = f.lt

  abbrev pub le_f : F → F → Bool
  le_f = f.le

-- Times in thousandths, none negative, for running the model.
instance abbrev pub millis : Float ℕ
millis = record {
  of_milli = λ n. n;
  of_ℤ = λ z. 1000 * pos_part z;
  lt = ltb;
  le = leb;
  sub = λ a b. a - b;
  mul = λ a b. a * b / 1000;
  min = λ a b. if leb a b then a else b;
  max = λ a b. if leb a b then b else a;
  is_finite = λ a. true;
  to_u64 = λ a. a / 1000;
}
