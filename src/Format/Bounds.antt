-- ===== src/Format/Bounds.antt =====
-- How long a printed number is, for the fixed buffers that the sources print into.
use native.Mathlib.Nat.{pow-suc, pow-zero, div-lt_iff_lt-mul}
use android_device_gionee_p.Common.{
  ℕ, zero, suc, ◌+◌, ◌*◌, ◌/◌, ◌%◌, ◌^◌, ◌<◌, ◌≤◌, [], ◌∷◌, length, arith, ltb, Bool-cases, inl,
  inr, lt→ltb,
}
use android_device_gionee_p.Common.Int.{ℤ, pos, negsuc, IsInt32}
use android_device_gionee_p.Format.{Text, digits, glyph_decimal, digit_fuel, decimal, decimal_ℤ}

module _ (base : ℕ) (glyph : ℕ → ℕ) (two : 2 ≤ base) where
  below_base : (n : ℕ) → n < base ^ 1 → n < base
  below_base n h = let h' : n < 1 * base = rw (pow-suc base 0, pow-zero base) at h in omega arith

  quotient_shorter : (k n : ℕ) → n < base ^ suc (suc k) → n / base < base ^ suc k
  quotient_shorter k n h = (div-lt_iff_lt-mul (omega arith)).1 (rw (← pow-suc base (suc k)) h)

  -- A number below base ^ (k + 1) has at most k + 1 digits.
  pub length-digits :
      (f k n : ℕ) (out : Text)
      → n < base ^ suc k
      → length (digits base glyph f n out) ≤ suc k + length out
  unfolding digits
  length-digits zero k n out h = omega arith
  length-digits (suc f) zero n out h = rw (lt→ltb n base (below_base n h), digits) (omega arith)
  length-digits (suc f) (suc k) n out h = elim (Bool-cases (ltb n base)) [
    | inl small ↦ rw (small, digits) (omega arith)
    | inr big ↦
        rw (big, digits)
          (omega
            (arith, length-digits f k (n / base) (glyph (n % base) ∷ out) (quotient_shorter k n h)))
  ]

pub length-decimal : (k n : ℕ) → n < 10 ^ suc k → length (decimal n) ≤ suc k
unfolding decimal
length-decimal k n h =
    omega (arith, length-digits 10 glyph_decimal (omega arith) digit_fuel k n [] h)

-- "%d" of a 32-bit `int` has at most eleven characters.
pub length-decimal_ℤ : (z : ℤ) → IsInt32 z → length (decimal_ℤ z) ≤ 11
unfolding decimal_ℤ
length-decimal_ℤ (pos n) h = omega (arith, length-decimal 9 n (omega arith))
length-decimal_ℤ (negsuc n) h = omega (arith, length-decimal 9 (suc n) (omega arith))
