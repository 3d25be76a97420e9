-- ===== src/Wifi/Driver/Buffer.antt =====
-- What a command of mediatek_driver_cmd_nl80211.c may leave in the caller's buffer: a result
-- above 0 counts the bytes of it that are the reply.
use android_device_gionee_p.Common.{
  ℕ, zero, suc, ◌-◌, ◌<◌, ◌≤◌, ◌≡◌, ◌⊎◌, refl, ap, List, [], ◌∷◌, Bool, true, false, arith, ◌==◌,
  leb, if◌then◌else◌, length, length-take, length-append, inl, inr,
}
use android_device_gionee_p.Common.Int.{pos, negsuc}
use android_device_gionee_p.Format.{Text, stored}
use android_device_gionee_p.Wifi.Netlink.{Bytes}
use android_device_gionee_p.Wifi.Printer.{Printed, complete, cut, print, buffer}
use android_device_gionee_p.Wifi.Printer.Laws.{joined, buffer-print}
use android_device_gionee_p.Wifi.Statistics.{StaStatistics}
use android_device_gionee_p.Wifi.LinkDetect.{
  LinkDetect, link_entries, link_result, print_link_detect,
}
use android_device_gionee_p.Wifi.Print.{statistics_entries, statistics_result, print_sta_statistics}
use android_device_gionee_p.Wifi.Driver.{Driver, Result, returned, undefined, Bss, fill_buf}

-- A result above 0 counts bytes that the buffer holds.
abbrev pub IsReply : Result → Text → Type 0
IsReply (returned (pos n)) buf = n ≤ length buf
IsReply (returned (negsuc n)) buf = Unit {0}
IsReply undefined buf = Unit {0}

-- The buffer is as it was, or holds a text with room for its NUL.
pub record IsWithin (buflen : ℕ) (d : Driver) (res : Result × Driver) : Type 0 where
  pub bound : (res.1.buf ≡ d.buf) ⊎ (length res.1.buf < buflen)
  pub reply : IsReply res.0 res.1.buf

length-buffer :
    (buflen : ℕ) (ts : List Text)
    → 0 < buflen
    → length (buffer buflen (print buflen ts [])) < buflen
length-buffer buflen ts room =
    omega (arith, ap length (buffer-print buflen ts [] room), length-take (buflen - 1) (joined ts))

statistics_result-le : (buflen : ℕ) (p : Printed) → statistics_result p ≤ length (buffer buflen p)
statistics_result-le buflen (complete out) = omega arith
statistics_result-le buflen (cut out t) = omega arith

link_result-le : (buflen : ℕ) (p : Printed) → link_result p ≤ length (buffer buflen p)
link_result-le buflen (complete out) = omega arith
link_result-le buflen (cut out t) =
    omega (arith, length-append out (stored (buflen - length out) t))

-- What both reports leave in a buffer of any size.
abbrev pub IsPrinted : ℕ → Text → ℕ → Text → Type 0
IsPrinted buflen old n text =
    let buf = if buflen == 0 then old else text in
    ((buf ≡ old) ⊎ (length buf < buflen)) × (n ≤ length buf)

-- A text that fits in a buffer of at least one byte.
pub fits-IsPrinted :
    (n : ℕ) (old text : Text) (k : ℕ)
    → length text < suc n
    → k ≤ length text
    → IsPrinted (suc n) old k text
fits-IsPrinted n old text k short counted =
    let room : (suc n == 0) ≡ false = ground arith in rw room (inr short, counted)

-- Nothing fits in a buffer of no bytes.
print-zero : (t : Text) (ts : List Text) → print 0 (t ∷ ts) [] ≡ cut [] t
unfolding print
print-zero t ts =
    let none_fits : leb 0 (length t) ≡ true = ground arith in rw (none_fits, print) refl

statistics_result-zero : (ts : List Text) (n : ℕ) → statistics_result (print 0 ts []) ≤ n
unfolding print
statistics_result-zero [] n = omega arith
statistics_result-zero (t ∷ ts) n = rw (print-zero t ts) (omega arith)

link_result-zero : (ts : List Text) (n : ℕ) → link_result (print 0 ts []) ≤ n
unfolding print
link_result-zero [] n = omega arith
link_result-zero (t ∷ ts) n = rw (print-zero t ts) (omega arith)

pub print_sta_statistics-IsPrinted :
    (mac_text : Bytes → Text) (s : StaStatistics) (buflen : ℕ) (old : Text)
    → let (n, text) = print_sta_statistics mac_text s buflen in IsPrinted buflen old n text
unfolding print_sta_statistics
print_sta_statistics-IsPrinted mac_text s zero old =
    (inl refl, statistics_result-zero (statistics_entries mac_text s) (length old))
print_sta_statistics-IsPrinted mac_text s (suc n) old =
    fits-IsPrinted n old _ _ (length-buffer (suc n) (statistics_entries mac_text s) (omega arith))
      (statistics_result-le (suc n) (print (suc n) (statistics_entries mac_text s) []))

pub print_link_detect-IsPrinted :
    (s : LinkDetect) (buflen : ℕ) (old : Text)
    → let (n, text) = print_link_detect s buflen in IsPrinted buflen old n text
unfolding print_link_detect
print_link_detect-IsPrinted s zero old = (inl refl, link_result-zero (link_entries s) (length old))
print_link_detect-IsPrinted s (suc n) old =
    fits-IsPrinted n old _ _ (length-buffer (suc n) (link_entries s) (omega arith))
      (link_result-le (suc n) (print (suc n) (link_entries s) []))

module _ (buflen : ℕ) where
  pub IsWithin-printed :
      (n : ℕ) (text : Text) (d : Driver)
      → IsPrinted buflen d.buf n text
      → IsWithin buflen d (returned (pos n), fill_buf buflen text d)
  IsWithin-printed n text d (held, counted) = record { bound = held; reply = counted }

  -- The buffer is not touched, and nothing of it is sent.
  pub IsWithin-same :
      (res : Result × Driver) (d : Driver)
      → res.1.buf ≡ d.buf
      → ((text : Text) → IsReply res.0 text)
      → IsWithin buflen d res
  IsWithin-same res d e silent = record { bound = inl e; reply = silent res.1.buf }

  -- -1
  pub IsWithin-failed : (d : Driver) → IsWithin buflen d (returned (negsuc 0), d)
  IsWithin-failed d = IsWithin-same _ d refl (λ text. tt)

  -- 0
  pub IsWithin-done : (e d : Driver) → e.buf ≡ d.buf → IsWithin buflen d (returned (pos 0), e)
  IsWithin-done e d same = IsWithin-same _ d same (λ text. omega arith)

  pub IsWithin-undefined : (d : Driver) → IsWithin buflen d (undefined, d)
  IsWithin-undefined d = IsWithin-same _ d refl (λ text. tt)

  pub when-IsWithin :
      (test : Bool) (hit miss : Result × Driver) (d : Driver)
      → IsWithin buflen d hit
      → IsWithin buflen d miss
      → IsWithin buflen d (if test then hit else miss)
  when-IsWithin true hit miss d h k = h
  when-IsWithin false hit miss d h k = k

  -- A command that reads `wpa_s`.
  pub reads-IsWithin :
      (bss : Bss) (res : Result × Driver) (d : Driver)
      → IsWithin buflen d res
      → IsWithin buflen d (if bss.is_ap0 then (undefined, d) else res)
  reads-IsWithin bss res d h = when-IsWithin bss.is_ap0 _ res d (IsWithin-undefined d) h
