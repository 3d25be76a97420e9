-- ===== src/Format.antt =====
-- The conversions of C's `printf` family that the sources use: "%d", "%u", "%llu", "%02X",
-- "%08X", "%02x" and plain text, and what `snprintf` leaves in a buffer.
-- A text is the list of its bytes, without the final NUL.
pub mod Digits
pub mod Bounds
use Prim.Native.Char.{code}
use Prim.Native.String.{String}
use android_device_gionee_p.Common.{
  ℕ, zero, suc, ◌+◌, ◌-◌, ◌/◌, ◌%◌, List, [], ◌∷◌, ◌++◌, ltb, if◌then◌else◌, true, false, length,
  take, replicate,
}
use android_device_gionee_p.Common.Int.{ℤ, pos, negsuc}

abbrev pub Text : Type 0
Text = List ℕ

-- The bytes of an ASCII literal.
abbrev pub codes : String → Text
codes String.[] = []
codes (String.◌∷◌ c s) = code c ∷ codes s

abbrev pub newline : Text
newline = 10 ∷ []

-- The digits of a number in a base, in front of `out`; the fuel bounds their number.
unfoldable pub digits : ℕ → (ℕ → ℕ) → ℕ → ℕ → Text → Text
digits base glyph zero n out = out
digits base glyph (suc f) n out = elim (ltb n base) [
  | true ↦ glyph n ∷ out
  | false ↦ digits base glyph f (n / base) (glyph (n % base) ∷ out)
]

abbrev pub glyph_decimal : ℕ → ℕ
glyph_decimal d = b'0' + d

abbrev pub glyph_upper : ℕ → ℕ
glyph_upper d = if ltb d 10 then b'0' + d else 55 + d

abbrev pub glyph_lower : ℕ → ℕ
glyph_lower d = if ltb d 10 then b'0' + d else 87 + d

-- A 64-bit number has at most twenty decimal and sixteen hexadecimal digits.
abbrev pub digit_fuel : ℕ
digit_fuel = 20

-- "%u" and "%llu"
unfoldable pub decimal : ℕ → Text
unfolding digits
decimal n = digits 10 glyph_decimal digit_fuel n []

-- "%d"
unfoldable pub decimal_ℤ : ℤ → Text
unfolding decimal
decimal_ℤ (pos n) = decimal n
decimal_ℤ (negsuc n) = b'-' ∷ decimal (suc n)

-- The flag `0` with a width.
abbrev pub pad : ℕ → Text → Text
pad width t = replicate (width - length t) b'0' ++ t

-- "%02X" and "%08X"
unfoldable pub hex_upper : ℕ → ℕ → Text
unfolding digits
hex_upper width n = pad width (digits 16 glyph_upper digit_fuel n [])

-- "%02x"
unfoldable pub hex_lower : ℕ → ℕ → Text
unfolding digits
hex_lower width n = pad width (digits 16 glyph_lower digit_fuel n [])

-- What `snprintf` stores in front of the NUL in a buffer of `size` bytes. Its result is the length
-- of the whole text, whether that fits or not.
abbrev pub stored : ℕ → Text → Text
stored size t = take (size - 1) t
