-- ===== src/Wifi/Printer.antt =====
-- The way in which `print_sta_statistics` and `wpa_driver_get_sta_link_detect` of
-- mediatek_driver_cmd_nl80211.c fill a buffer: `os_snprintf` at `pos`, and an early return when the
-- text did not fit. `pos - buf` is the length of what was printed so far.
pub mod Laws
use android_device_gionee_p.Common.{ℕ, ◌+◌, ◌-◌, List, [], ◌∷◌, ◌++◌, leb, length, true, false}
use android_device_gionee_p.Format.{Text, stored}

-- What a printing loop leaves: where it stopped, the bytes in front of the NUL, and whether the
-- last text fitted.
pub data Printed : Type 0 where
  complete : Text → Printed
  -- Everything before the text that did not fit, and that text.
  cut : Text → Text → Printed

-- `ret = os_snprintf(pos, end - pos, …); if (ret < 0 || ret >= end - pos) return …; pos += ret;`
-- for one text after another. `os_snprintf` of these formats has no negative result.
unfoldable pub print : ℕ → List Text → Text → Printed
print buflen [] out = complete out
print buflen (t ∷ ts) out = elim (leb (buflen - length out) (length t)) [
  | true ↦ cut out t
  | false ↦ print buflen ts (out ++ t)
]

-- The bytes that the buffer holds in front of the NUL.
abbrev pub buffer : ℕ → Printed → Text
buffer buflen (complete out) = out
buffer buflen (cut out t) = out ++ stored (buflen - length out) t
