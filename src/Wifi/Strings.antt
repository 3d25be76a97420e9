-- ===== src/Wifi/Strings.antt =====
-- The C library's string functions that mediatek_driver_cmd_nl80211.c calls, over texts without
-- their NUL: comparison by prefix, with and without case, `strchr`, `strtol` and `atoi`.
pub mod Numbers
use android_device_gionee_p.Common.{
  ℕ, ◌+◌, ◌-◌, ◌*◌, ◌%◌, ◌^◌, [], ◌∷◌, Bool, true, false, ◌&&◌, ◌||◌, Option, none, some, ltb, leb,
  ◌==◌, if◌then◌else◌,
}
use android_device_gionee_p.Common.Int.{ℤ, pos, negsuc, neg_ℕ}
use android_device_gionee_p.Format.{Text}

abbrev pub to_lower : ℕ → ℕ
to_lower c = if leb b'A' c && leb c b'Z' then c + 32 else c

-- `strncmp(s, literal, strlen(literal)) == 0`
unfoldable pub starts_with : Text → Text → Bool
starts_with [] s = true
starts_with (c ∷ cs) [] = false
starts_with (c ∷ cs) (d ∷ ds) = c == d && starts_with cs ds

-- `strncasecmp(s, literal, strlen(literal)) == 0`
unfoldable pub starts_with_nocase : Text → Text → Bool
starts_with_nocase [] s = true
starts_with_nocase (c ∷ cs) [] = false
starts_with_nocase (c ∷ cs) (d ∷ ds) = to_lower c == to_lower d && starts_with_nocase cs ds

-- `strcasecmp(s, literal) == 0`
unfoldable pub equals_nocase : Text → Text → Bool
equals_nocase [] [] = true
equals_nocase [] (d ∷ ds) = false
equals_nocase (c ∷ cs) [] = false
equals_nocase (c ∷ cs) (d ∷ ds) = to_lower c == to_lower d && equals_nocase cs ds

-- The text behind the first blank, if there is one.
unfoldable pub behind_blank : Text → Option Text
behind_blank [] = none
behind_blank (c ∷ t) = if c == b' ' then some t else behind_blank t

abbrev pub is_space : ℕ → Bool
is_space c = c == 32 || (leb 9 c && leb c 13)

unfoldable pub skip_space : Text → Text
skip_space [] = []
skip_space (c ∷ t) = if is_space c then skip_space t else c ∷ t

-- A number past every base for a byte that is no digit.
abbrev pub digit_value : ℕ → ℕ
digit_value c =
    if leb b'0' c && leb c b'9'
    then c - b'0'
    else if leb b'a' c && leb c b'z'
    then c - 87
    else if leb b'A' c && leb c b'Z'
    then c - 55
    else 99

unfoldable pub scan : ℕ → ℕ → Bool → Text → Option ℕ
scan base acc seen [] = if seen then some acc else none
scan base acc seen (c ∷ t) =
    let rest = scan base (acc * base + digit_value c) true t in
    if ltb (digit_value c) base then rest else if seen then some acc else none

abbrev pub is_hex : Text → Bool
is_hex [] = false
is_hex (c ∷ t) = ltb (digit_value c) 16

-- Base 0 reads the base off the text: "0x" in front of a digit, "0", or neither.
unfoldable pub scan_any : Text → Option ℕ
unfolding scan
scan_any (c ∷ x ∷ t) =
    if c == b'0' && (x == b'x' || x == b'X') && is_hex t
    then scan 16 0 false t
    else if c == b'0'
    then scan 8 0 false (c ∷ x ∷ t)
    else scan 10 0 false (c ∷ x ∷ t)
scan_any t = scan 10 0 false t

-- `LONG_MAX` and `LONG_MIN` of a 32-bit `long` bound the result.
abbrev pub clamp : Bool → ℕ → ℤ
clamp false n = if ltb n (2 ^ 31) then pos n else pos (2 ^ 31 - 1)
clamp true n = if leb n (2 ^ 31) then neg_ℕ n else negsuc (2 ^ 31 - 1)

abbrev pub map_clamp : Bool → Option ℕ → Option ℤ
map_clamp minus none = none
map_clamp minus (some n) = some (clamp minus n)

abbrev pub signed : (Text → Option ℕ) → Text → Option ℤ
signed read [] = none
signed read (c ∷ t) =
    if c == b'-'
    then map_clamp true (read t)
    else if c == b'+'
    then map_clamp false (read t)
    else map_clamp false (read (c ∷ t))

-- `strtol(s, &endp, 0)`; `none` is `endp == s`.
unfoldable pub strtol : Text → Option ℤ
unfolding scan_any skip_space
strtol s = signed scan_any (skip_space s)

unfoldable pub atoi : Text → ℤ
unfolding scan skip_space
atoi s = elim (signed (scan 10 0 false) (skip_space s)) [ none ↦ pos 0 | some n ↦ n ]

-- The conversion of a 32-bit `long` to `u32`.
abbrev pub to_u32 : ℤ → ℕ
to_u32 (pos n) = n % 2 ^ 32
to_u32 (negsuc n) = 2 ^ 32 - 1 - n % 2 ^ 32
