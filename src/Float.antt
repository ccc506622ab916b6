-- ===== src/Float.antt =====
-- What src/state.rs, src/monitor.rs and src/concurrency.rs do with an `f64`, as an interface: the
-- type `W` of the numbers is a parameter, and no law is assumed but where a theorem names it.
use simple_downloader.Prelude.{
  ℕ, ◌+◌, ◌*◌, ◌/◌, ◌-◌, Bool, true, false, ltb, leb, ◌==◌, max, ◌≡◌, List, [], ◌∷◌, arith,
}

pub record Float (W : Type 0) : Type 0 where
  -- the value of `n / d`, for the constants
  pub lit : ℕ → ℕ → W
  -- `n as f64`
  pub of_nat : ℕ → W
  pub add : W → W → W
  pub sub : W → W → W
  pub mul : W → W → W
  pub div : W → W → W
  pub fmax : W → W → W
  pub lt : W → W → Bool
  pub le : W → W → Bool
  pub eq : W → W → Bool
  pub is_finite : W → Bool
  -- `f64::MAX`
  pub greatest : W
  -- `x.ceil() as usize` and `x as u64`
  pub ceil_usize : W → ℕ
  pub to_u64 : W → ℕ

module _ {W : Type 0} ⦃f : Float W⦄ where
  abbrev pub nought : W
  nought = f.lit 0 1

  -- `.sum::<f64>()`
  sum_onto : W → List W → W
  sum_onto acc [] = acc
  sum_onto acc (x ∷ xs) = sum_onto (f.add acc x) xs

  unfoldable pub sum : List W → W
  unfolding sum_onto
  sum xs = sum_onto nought xs

  -- A value that is not NaN.
  abbrev pub IsNumber : W → Type 0
  IsNumber x = f.eq x x ≡ true

-- The order of the values that are numbers.
pub record IsOrdered (W : Type 0) ⦃f : Float W⦄ : Type 0 where
  pub lt_irrefl : (x : W) → IsNumber x → f.lt x x ≡ false
  pub lt_asym : (x y : W) → IsNumber x → IsNumber y → f.lt x y ≡ true → f.lt y x ≡ false
  pub not_lt_trans :
      (x y z : W)
      → IsNumber x
      → IsNumber y
      → IsNumber z
      → f.lt x y ≡ false
      → f.lt y z ≡ false
      → f.lt x z ≡ false

-- Numbers in thousandths, in which the tests run.
abbrev pub Fixed : Type 0
Fixed = ℕ

instance abbrev pub fixed_float : Float Fixed
fixed_float = record {
  lit = λ n d. n * 1000 / d;
  of_nat = λ n. n * 1000;
  add = λ x y. x + y;
  sub = λ x y. x - y;
  mul = λ x y. x * y / 1000;
  div = λ x y. x * 1000 / y;
  fmax = max;
  lt = ltb;
  le = leb;
  eq = λ x y. x == y;
  is_finite = λ x. true;
  greatest = 1000000000000000000000;
  ceil_usize = λ x. (x + 999) / 1000;
  to_u64 = λ x. x / 1000;
}

pub Fixed-IsOrdered : IsOrdered Fixed
Fixed-IsOrdered = record {
  lt_irrefl = λ x h. ground arith;
  lt_asym = λ x y h k e. ground arith;
  not_lt_trans = λ x y z h k l p q. ground arith;
}
