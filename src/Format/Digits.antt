-- ===== src/Format/Digits.antt =====
-- Printing and reading back: a printed number denotes the number that was printed.
use native.Mathlib.Nat.{pow-suc, mod-lt, div-add-mod', div-lt_iff_lt-mul, pow-zero}
use android_device_gionee_p.Common.{
  ℕ, zero, suc, ◌+◌, ◌-◌, ◌*◌, ◌/◌, ◌%◌, ◌^◌, ◌<◌, ◌≤◌, ◌≡◌, refl, ap, ◌∙◌, [], ◌∷◌, ◌++◌, length,
  replicate, ◌==◌, arith, ltb, if◌then◌else◌, Bool-cases, inl, inr, ltb→lt, lt→ltb,
}
use android_device_gionee_p.Common.Int.{ℤ, pos, negsuc, neg_ℕ, pos_part, neg_part}
use android_device_gionee_p.Format.{
  Text, digits, glyph_decimal, glyph_upper, digit_fuel, decimal, decimal_ℤ, hex_upper,
}

module _ (base : ℕ) (unglyph : ℕ → ℕ) where
  -- The number that a row of digits denotes, behind an accumulator.
  unfoldable pub value : ℕ → Text → ℕ
  value acc [] = acc
  value acc (c ∷ t) = value (acc * base + unglyph c) t

module _ (base : ℕ) (two : 2 ≤ base) where
  one_digit : (n : ℕ) → n < base ^ 1 → n < base
  one_digit n h = let h' : n < 1 * base = rw (pow-suc base 0, pow-zero base) at h in omega arith

  quotient_fits : (f n : ℕ) → n < base ^ suc (suc f) → n / base < base ^ suc f
  quotient_fits f n h = (div-lt_iff_lt-mul (omega arith)).1 (rw (← pow-suc base (suc f)) h)

module _ (base : ℕ) (glyph unglyph : ℕ → ℕ) (two : 2 ≤ base)
    (inverse : (d : ℕ) → d < base → unglyph (glyph d) ≡ d) where
  -- The last digit: the number is below the base.
  value-last :
      (n : ℕ) (out : Text)
      → n < base
      → value base unglyph 0 (glyph n ∷ out) ≡ value base unglyph n out
  unfolding value
  value-last n out h = ap (λ (k : ℕ). value base unglyph k out) (omega (arith, inverse n h))

  -- One digit more: what the quotient and the remainder denote together.
  value-next :
      (n : ℕ) (out : Text)
      → value base unglyph (n / base) (glyph (n % base) ∷ out) ≡ value base unglyph n out
  unfolding value
  value-next n out =
      ap (λ (k : ℕ). value base unglyph k out)
        (rw (inverse (n % base) (mod-lt n (omega arith))) (div-add-mod' n base))

  -- With room for its digits, a printed number reads back as itself.
  pub value-digits :
      (f n : ℕ) (out : Text)
      → n < base ^ suc f
      → value base unglyph 0 (digits base glyph (suc f) n out) ≡ value base unglyph n out
  unfolding digits
  value-digits zero n out h =
      rw (lt→ltb n base (one_digit base two n h), digits)
        (value-last n out (one_digit base two n h))
  value-digits (suc f) n out h = elim (Bool-cases (ltb n base)) [
    | inl small ↦ rw (small, digits) (value-last n out (ltb→lt n base small))
    | inr big ↦
        rw (big, digits)
          (value-digits f (n / base) (glyph (n % base) ∷ out) (quotient_fits base two f n h)
            ∙ value-next n out)
  ]

abbrev pub undecimal : ℕ → ℕ
undecimal c = c - b'0'

-- "%u" and "%llu" print every number of up to twenty digits so that it reads back.
pub value-decimal : (n : ℕ) → n < 10 ^ digit_fuel → value 10 undecimal 0 (decimal n) ≡ n
unfolding decimal value
value-decimal n h =
    value-digits 10 glyph_decimal undecimal (omega arith) (λ d lt. omega arith) 19 n [] h

abbrev pub unhex : ℕ → ℕ
unhex c = if ltb c 58 then c - b'0' else c - 55

unhex-glyph : (d : ℕ) → d < 16 → unhex (glyph_upper d) ≡ d
unhex-glyph d h = ground arith

-- Zeros in front of a row of digits do not change what it denotes.
value-pad : (k : ℕ) (t : Text) → value 16 unhex 0 (replicate k b'0' ++ t) ≡ value 16 unhex 0 t
unfolding value
value-pad zero t = refl
value-pad (suc k) t = value-pad k t

-- "%02X" and "%08X" too, for numbers of up to twenty hexadecimal digits.
pub value-hex_upper : (width n : ℕ) → n < 16 ^ digit_fuel → value 16 unhex 0 (hex_upper width n) ≡ n
unfolding hex_upper value
value-hex_upper width n h =
    value-pad (width - length (digits 16 glyph_upper digit_fuel n []))
      (digits 16 glyph_upper digit_fuel n [])
    ∙ value-digits 16 glyph_upper unhex (omega arith) unhex-glyph 19 n [] h

-- A text that begins with a digit.
Leads : Text → Type 0
Leads [] = ⊥
Leads (c ∷ t) = b'0' ≤ c

digits-Leads : (f n : ℕ) (out : Text) → Leads (digits 10 glyph_decimal (suc f) n out)
unfolding digits Leads
digits-Leads zero n out = elim (Bool-cases (ltb n 10)) [
  | inl small ↦ rw (small, digits) (omega arith)
  | inr big ↦ rw (big, digits) (omega arith)
]
digits-Leads (suc f) n out = elim (Bool-cases (ltb n 10)) [
  | inl small ↦ rw (small, digits) (omega arith)
  | inr big ↦ rw (big, digits) (digits-Leads f (n / 10) (glyph_decimal (n % 10) ∷ out))
]

abbrev pub IsDigit : ℕ → Type 0
IsDigit c = (b'0' ≤ c) × (c ≤ b'9')

unfoldable pub AllDigits : Text → Type 0
AllDigits [] = Unit {0}
AllDigits (c ∷ t) = IsDigit c × AllDigits t

-- A printed number has digits only, and the first of them is not 0 unless the number is.
pub digits-AllDigits :
    (f n : ℕ) (out : Text) → AllDigits out → AllDigits (digits 10 glyph_decimal f n out)
unfolding digits AllDigits
digits-AllDigits zero n out h = h
digits-AllDigits (suc f) n out h = elim (Bool-cases (ltb n 10)) [
  | inl small ↦ rw (small, digits) (let lt = ltb→lt n 10 small in (omega arith, h))
  | inr big ↦
      rw (big, digits) (digits-AllDigits f (n / 10) (glyph_decimal (n % 10) ∷ out) (omega arith, h))
]

unfoldable pub Begins : Text → Type 0
Begins [] = ⊥
Begins (c ∷ t) = (b'1' ≤ c) × (c ≤ b'9')

pub digits-Begins :
    (f n : ℕ) (out : Text) → n < 10 ^ suc f → 0 < n → Begins (digits 10 glyph_decimal (suc f) n out)
unfolding digits Begins
digits-Begins zero n out h k =
    rw (lt→ltb n 10 (one_digit 10 (omega arith) n h), digits)
      (let lt = one_digit 10 (omega arith) n h in omega arith)
digits-Begins (suc f) n out h k = elim (Bool-cases (ltb n 10)) [
  | inl small ↦ rw (small, digits) (let lt = ltb→lt n 10 small in omega arith)
  | inr big ↦
      rw (big, digits)
        (digits-Begins f (n / 10) (glyph_decimal (n % 10) ∷ out)
          (quotient_fits 10 (omega arith) f n h) (ground arith))
]

-- The integer that a text written by "%d" denotes.
pub read_ℤ : Text → ℤ
read_ℤ [] = pos 0
read_ℤ (c ∷ t) =
    if c == b'-' then neg_ℕ (value 10 undecimal 0 t) else pos (value 10 undecimal 0 (c ∷ t))

read_ℤ-Leads : (t : Text) → Leads t → read_ℤ t ≡ pos (value 10 undecimal 0 t)
unfolding Leads read_ℤ
read_ℤ-Leads [] h = absurd h
read_ℤ-Leads (c ∷ t) h = ground arith

-- "%d" prints every integer of up to twenty digits so that it reads back.
pub read_ℤ-decimal_ℤ :
    (z : ℤ) → pos_part z < 10 ^ digit_fuel → neg_part z < 10 ^ digit_fuel → read_ℤ (decimal_ℤ z) ≡ z
unfolding decimal_ℤ
read_ℤ-decimal_ℤ (pos n) h k =
    read_ℤ-Leads (decimal n) (digits-Leads 19 n []) ∙ ap pos (value-decimal n h)
read_ℤ-decimal_ℤ (negsuc n) h k = unfold read_ℤ in ap neg_ℕ (value-decimal (suc n) k)
