-- ===== src/Ril/Hex.antt =====
-- The hexadecimal strings of MediaTekRIL.java: `hexCharToInt` and `hexStringToBytes`.
use Prim.Native.Nat.{bit_or}
use android_device_gionee_p.Common.{
  ℕ, zero, suc, ◌+◌, ◌-◌, ◌*◌, ◌^◌, ◌/◌, ◌%◌, ◌<◌, ◌≡◌, refl, ap, List, [], ◌∷◌, Bool, true, false,
  ◌&&◌, Option, none, some, leb, ◌==◌, if◌then◌else◌, arith, ==_iff,
}
use android_device_gionee_p.Format.{Text, glyph_upper, glyph_lower}

-- `none` is an exception.
pub hex_char_to_int : ℕ → Option ℕ
hex_char_to_int c =
    if leb b'0' c && leb c b'9'
    then some (c - b'0')
    else if leb b'A' c && leb c b'F'
    then some (c - b'A' + 10)
    else if leb b'a' c && leb c b'f'
    then some (c - b'a' + 10)
    else none

abbrev pub pair_byte : Option ℕ → Option ℕ → Option ℕ
pair_byte (some h) (some l) = some (bit_or (h * 2 ^ 4) l)
pair_byte _ _ = none

abbrev pub prepend_byte : Option ℕ → Option (List ℕ) → Option (List ℕ)
prepend_byte (some b) (some bytes) = some (b ∷ bytes)
prepend_byte _ _ = none

-- The loop takes two characters at a time; `charAt` throws behind the last one.
pub hex_string_to_bytes : Text → Option (List ℕ)
unfolding hex_char_to_int
hex_string_to_bytes [] = some []
hex_string_to_bytes (c ∷ []) = none
hex_string_to_bytes (c ∷ d ∷ rest) =
    prepend_byte (pair_byte (hex_char_to_int c) (hex_char_to_int d)) (hex_string_to_bytes rest)

-- Each byte as two digits, each with its own case.
abbrev pub glyph_of : Bool → ℕ → ℕ
glyph_of true d = glyph_upper d
glyph_of false d = glyph_lower d

pub hex_of : List (ℕ × Bool × Bool) → Text
hex_of [] = []
hex_of ((b, high, low) ∷ rest) = glyph_of high (b / 16) ∷ glyph_of low (b % 16) ∷ hex_of rest

pub bytes_of : List (ℕ × Bool × Bool) → List ℕ
bytes_of [] = []
bytes_of ((b, high, low) ∷ rest) = b ∷ bytes_of rest

abbrev pub AreBytes : List (ℕ × Bool × Bool) → Type 0
AreBytes [] = Unit {0}
AreBytes ((b, high, low) ∷ rest) = (b < 256) × AreBytes rest

all_below : ℕ → (ℕ → Bool) → Bool
all_below zero p = true
all_below (suc n) p = p n && all_below n p

all_below-elim : (n : ℕ) (p : ℕ → Bool) (x : ℕ) → all_below n p ≡ true → x < n → p x ≡ true
unfolding all_below
all_below-elim zero p x h lt = absurd (let no_way : ⊥ = omega arith in no_way)
all_below-elim (suc n) p x h lt = ground (arith, all_below-elim n p x)

abbrev holds : ℕ → Option ℕ → Bool
holds b none = false
holds b (some c) = c == b

holds-elim : (b : ℕ) (o : Option ℕ) → holds b o ≡ true → o ≡ some b
holds-elim b none h = cc
holds-elim b (some c) h = ap some ((==_iff c b).0 h)

abbrev pair_of : Bool → Bool → ℕ → Option ℕ
pair_of high low b =
    pair_byte (hex_char_to_int (glyph_of high (b / 16))) (hex_char_to_int (glyph_of low (b % 16)))

pair_table : (high low : Bool) → all_below 256 (λ b. holds b (pair_of high low b)) ≡ true
unfolding all_below hex_char_to_int
pair_table true true = refl
pair_table true false = refl
pair_table false true = refl
pair_table false false = refl

pair_of-byte : (high low : Bool) (b : ℕ) → b < 256 → pair_of high low b ≡ some b
pair_of-byte high low b h =
    holds-elim b (pair_of high low b)
      (all_below-elim 256 (λ c. holds c (pair_of high low c)) b (pair_table high low) h)

-- Bytes that are written as two hexadecimal digits each, in upper or lower case, are read back.
pub hex_string_to_bytes-hex_of :
    (bytes : List (ℕ × Bool × Bool))
    → AreBytes bytes
    → hex_string_to_bytes (hex_of bytes) ≡ some (bytes_of bytes)
unfolding hex_string_to_bytes hex_of bytes_of
hex_string_to_bytes-hex_of [] h = refl
hex_string_to_bytes-hex_of ((b, high, low) ∷ rest) (h, hs) =
    rw (pair_of-byte high low b h) (rw (hex_string_to_bytes-hex_of rest hs) refl)
