-- ===== src/Wifi/Strings/Numbers.antt =====
-- `strtol` and `atoi` on printed numbers.
use android_device_gionee_p.Common.{
  ℕ, zero, suc, ◌+◌, ◌*◌, ◌^◌, ◌<◌, ◌≡◌, refl, ap, ◌∙◌, [], ◌∷◌, ◌++◌, true, false, Option, some,
  arith,
}
use android_device_gionee_p.Common.Int.{pos}
use android_device_gionee_p.Format.{Text, decimal, digits, digit_fuel}
use android_device_gionee_p.Format.Digits.{
  value, undecimal, value-decimal, AllDigits, IsDigit, digits-AllDigits, Begins, digits-Begins,
}
use android_device_gionee_p.Wifi.Strings.{
  scan, scan_any, skip_space, signed, strtol, atoi, digit_value, behind_blank,
}

digit_value-digit : (c : ℕ) → IsDigit c → digit_value c ≡ undecimal c
digit_value-digit c h = ground arith

scan-digits :
    (acc : ℕ) (t : Text) → AllDigits t → scan 10 acc true t ≡ some (value 10 undecimal acc t)
unfolding scan AllDigits value
scan-digits acc [] h = refl
scan-digits acc (c ∷ t) h =
    ground (arith, digit_value-digit c h.0, scan-digits (acc * 10 + undecimal c) t h.1)

module _ (c : ℕ) (t : Text) (h : IsDigit c) (rest : AllDigits t) where
  scan-all : scan 10 0 false (c ∷ t) ≡ some (value 10 undecimal 0 (c ∷ t))
  unfolding scan value
  scan-all = ground (arith, digit_value-digit c h, scan-digits (undecimal c) t rest)

  signed-digits :
      (read : Text → Option ℕ) (n : ℕ)
      → read (c ∷ t) ≡ some n
      → n < 2 ^ 31
      → signed read (skip_space (c ∷ t)) ≡ some (pos n)
  unfolding skip_space
  signed-digits read n e k = ground (arith, e)

atoi-digits :
    (t : Text)
    → Begins t
    → AllDigits t
    → value 10 undecimal 0 t < 2 ^ 31
    → atoi t ≡ pos (value 10 undecimal 0 t)
unfolding atoi Begins AllDigits
atoi-digits [] h all k = absurd h
atoi-digits (c ∷ t) h all k =
    rw (signed-digits c t all.0 all.1 (scan 10 0 false) _ (scan-all c t all.0 all.1) k, atoi) refl

strtol-digits :
    (t : Text)
    → Begins t
    → AllDigits t
    → value 10 undecimal 0 t < 2 ^ 31
    → strtol t ≡ some (pos (value 10 undecimal 0 t))
unfolding strtol scan_any Begins AllDigits
strtol-digits [] h all k = absurd h
strtol-digits (c ∷ []) h all k =
    signed-digits c [] all.0 all.1 scan_any _ (scan-all c [] all.0 all.1) k
strtol-digits (c ∷ x ∷ t) h all k =
    signed-digits c (x ∷ t) all.0 all.1 scan_any _ (ground (arith, scan-all c (x ∷ t) all.0 all.1))
      k

decimal-AllDigits : (n : ℕ) → AllDigits (decimal n)
unfolding decimal AllDigits
decimal-AllDigits n = digits-AllDigits digit_fuel n [] tt

decimal-Begins : (n : ℕ) → 0 < n → n < 10 ^ digit_fuel → Begins (decimal n)
unfolding decimal
decimal-Begins n h k = digits-Begins 19 n [] k h

-- `strtol` in base 0 and `atoi` read a number that "%d" or "%u" printed, up to 2^31 - 1, as that
-- number.
pub strtol-decimal :
    (n : ℕ) → n < 2 ^ 31 → (strtol (decimal n) ≡ some (pos n)) × (atoi (decimal n) ≡ pos n)
unfolding strtol atoi decimal digits scan_any scan skip_space
strtol-decimal zero h = (refl, refl)
strtol-decimal (suc n) h =
    let e = value-decimal (suc n) (omega arith) in
    let begins = decimal-Begins (suc n) (omega arith) (omega arith) in
    let fits : value 10 undecimal 0 (decimal (suc n)) < 2 ^ 31 = rw e h in
    (
      strtol-digits (decimal (suc n)) begins (decimal-AllDigits (suc n)) fits
          ∙ ap (λ (m : ℕ). some (pos m)) e,
      atoi-digits (decimal (suc n)) begins (decimal-AllDigits (suc n)) fits ∙ ap pos e,
    )

-- With a blank and more text behind the number.
module _ (u : Text) where
  scan-digits_behind :
      (acc : ℕ) (t : Text)
      → AllDigits t
      → scan 10 acc true (t ++ b' ' ∷ u) ≡ some (value 10 undecimal acc t)
  unfolding scan AllDigits value
  scan-digits_behind acc [] h = refl
  scan-digits_behind acc (c ∷ t) h =
      ground (arith, digit_value-digit c h.0, scan-digits_behind (acc * 10 + undecimal c) t h.1)

  scan-all_behind :
      (c : ℕ) (t : Text)
      → IsDigit c
      → AllDigits t
      → scan 10 0 false (c ∷ t ++ b' ' ∷ u) ≡ some (value 10 undecimal 0 (c ∷ t))
  unfolding scan value
  scan-all_behind c t h rest =
      ground (arith, digit_value-digit c h, scan-digits_behind (undecimal c) t rest)

  signed-first :
      (c : ℕ) (w : Text) (n : ℕ)
      → IsDigit c
      → scan 10 0 false (c ∷ w) ≡ some n
      → n < 2 ^ 31
      → signed (scan 10 0 false) (skip_space (c ∷ w)) ≡ some (pos n)
  unfolding skip_space
  signed-first c w n h e k = ground (arith, e)

  atoi-digits_behind :
      (t : Text)
      → Begins t
      → AllDigits t
      → value 10 undecimal 0 t < 2 ^ 31
      → atoi (t ++ b' ' ∷ u) ≡ pos (value 10 undecimal 0 t)
  unfolding atoi Begins AllDigits
  atoi-digits_behind [] h all k = absurd h
  atoi-digits_behind (c ∷ t) h all k =
      rw (signed-first c (t ++ b' ' ∷ u) _ all.0 (scan-all_behind c t all.0 all.1) k, atoi) refl

  behind_blank-digits : (t : Text) → AllDigits t → behind_blank (t ++ b' ' ∷ u) ≡ some u
  unfolding behind_blank AllDigits
  behind_blank-digits [] h = refl
  behind_blank-digits (c ∷ t) h = ground (arith, behind_blank-digits t h.1)

  pub behind_blank-decimal : (n : ℕ) → behind_blank (decimal n ++ b' ' ∷ u) ≡ some u
  behind_blank-decimal n = behind_blank-digits (decimal n) (decimal-AllDigits n)

  pub atoi-decimal_behind : (n : ℕ) → n < 2 ^ 31 → atoi (decimal n ++ b' ' ∷ u) ≡ pos n
  unfolding atoi decimal digits scan skip_space
  atoi-decimal_behind zero h = refl
  atoi-decimal_behind (suc n) h =
      let e = value-decimal (suc n) (omega arith) in
      let begins = decimal-Begins (suc n) (omega arith) (omega arith) in
      let fits : value 10 undecimal 0 (decimal (suc n)) < 2 ^ 31 = rw e h in
      atoi-digits_behind (decimal (suc n)) begins (decimal-AllDigits (suc n)) fits ∙ ap pos e
