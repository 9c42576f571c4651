-- ===== src/Number.antt =====
-- Python's numbers in the measurement scripts: an abstract type with the operations that the
-- scripts use, since the values are floats.
use emulator_test.Prelude.{
  ℕ, suc, ◌≡◌, refl, ◌⊎◌, Bool, true, false, not, arith, if◌then◌else◌, Result, ok, raised,
  zero_division,
}
use emulator_test.Prelude.Int.{ℤ, pos, ◌+ℤ◌, ◌-ℤ◌, ◌*ℤ◌, abs, leb_ℤ, ltb_ℤ, eq_ℤ, quotient}

pub record Number {ℓ} (F : Type ℓ) : Type ℓ where
  pub of_ℤ : ℤ → F
  pub half : F
  pub plus : F → F → F
  pub minus : F → F → F
  pub times : F → F → F
  pub over : F → F → F
  pub absolute : F → F
  pub le : F → F → Bool
  pub lt : F → F → Bool
  pub eq : F → F → Bool

module _ {ℓ} {F : Type ℓ} ⦃n : Number F⦄ where
  abbrev pub number : ℕ → F
  number k = n.of_ℤ (pos k)

  -- `a / b` raises where the divisor is zero.
  unfoldable pub divide : F → F → Result F
  divide a b = if n.eq b (number 0) then raised zero_division else ok (n.over a b)

-- The comparisons away from NaN: a total preorder, with `<` and `==` as its strict part and kernel.
pub record IsOrdered {ℓ} (F : Type ℓ) ⦃n : Number F⦄ : Type ℓ where
  pub le_refl : (x : F) → n.le x x ≡ true
  pub le_trans : (x y z : F) → n.le x y ≡ true → n.le y z ≡ true → n.le x z ≡ true
  pub le_total : (x y : F) → (n.le x y ≡ true) ⊎ (n.le y x ≡ true)
  pub lt-eq-not-le : (x y : F) → n.lt x y ≡ not (n.le y x)
  pub eq_refl : (x : F) → n.eq x x ≡ true
  pub eq_symm : (x y : F) → n.eq x y ≡ n.eq y x
  pub eq-le : (x y : F) → n.eq x y ≡ true → n.le x y ≡ true
  pub eq_of_le : (x y : F) → n.le x y ≡ true → n.le y x ≡ true → n.eq x y ≡ true

-- The conversion of a positive integer is not zero, and zero is.
pub record IsFaithful {ℓ} (F : Type ℓ) ⦃n : Number F⦄ : Type ℓ where
  pub zero_eq : n.eq (number 0) (number 0) ≡ true
  pub suc_ne : (k : ℕ) → n.eq (number (suc k)) (number 0) ≡ false

-- Whole numbers, at which the theorems are instantiated: quotients are cut off, and `half` is one unit.
instance abbrev pub whole_number : Number ℤ
whole_number = record {
  of_ℤ = λ z. z;
  half = pos 1;
  plus = ◌+ℤ◌;
  minus = ◌-ℤ◌;
  times = ◌*ℤ◌;
  over = quotient;
  absolute = abs;
  le = leb_ℤ;
  lt = ltb_ℤ;
  eq = eq_ℤ;
}

pub whole-IsOrdered : IsOrdered ℤ
unfolding eq_ℤ
whole-IsOrdered = record {
  le_refl = λ x. ground arith;
  le_trans = λ x y z p q. ground arith;
  le_total = λ x y. ground arith;
  lt-eq-not-le = λ x y. ground arith;
  eq_refl = λ x. ground arith;
  eq_symm = λ x y. ground arith;
  eq-le = λ x y p. ground arith;
  eq_of_le = λ x y p q. ground arith;
}

pub whole-IsFaithful : IsFaithful ℤ
unfolding eq_ℤ
whole-IsFaithful = record { zero_eq = refl; suc_ne = λ k. ground arith }
