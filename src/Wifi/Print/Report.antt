-- ===== src/Wifi/Print/Report.antt =====
-- `print_sta_statistics` against the whole report that it stands for.
use android_device_gionee_p.Common.{
  ℕ, ◌<◌, ◌≡◌, refl, ◌∙◌, ap₂, [], ltb, if◌then◌else◌, length, arith,
}
use android_device_gionee_p.Format.{Text, stored}
use android_device_gionee_p.Wifi.Netlink.{Bytes}
use android_device_gionee_p.Wifi.Statistics.{StaStatistics}
use android_device_gionee_p.Wifi.Printer.{Printed, complete, cut, print}
use android_device_gionee_p.Wifi.Printer.Laws.{joined, total, buffer-print, total-print}
use android_device_gionee_p.Wifi.Print.{statistics_entries, statistics_result, print_sta_statistics}

statistics_result-total : (printed : Printed) → statistics_result printed ≡ total printed
statistics_result-total (complete out) = refl
statistics_result-total (cut out t) = refl

module _ (mac_text : Bytes → Text) (s : StaStatistics) where
  abbrev pub report : Text
  report = joined (statistics_entries mac_text s)

  -- In a buffer of at least one byte, the bytes in front of the NUL are those that one `snprintf`
  -- of the whole report would store, so nothing is written past the buffer; the result is the
  -- report's length where the report fits with its NUL, and 0 where it was cut.
  pub print_sta_statistics_lem :
      (buflen : ℕ)
      → 0 < buflen
      → print_sta_statistics mac_text s buflen
        ≡ ((if ltb (length report) buflen then length report else 0), stored buflen report)
  unfolding print_sta_statistics
  print_sta_statistics_lem buflen room =
      ap₂ (λ (n : ℕ) (t : Text). (n, t))
        (statistics_result-total (print buflen (statistics_entries mac_text s) [])
          ∙ total-print buflen (statistics_entries mac_text s) [] room)
        (buffer-print buflen (statistics_entries mac_text s) [] room)

  -- The result never reaches the size of the buffer.
  pub print_sta_statistics-lt :
      (buflen : ℕ) → 0 < buflen → (print_sta_statistics mac_text s buflen).0 < buflen
  print_sta_statistics-lt buflen room = rw (print_sta_statistics_lem buflen room) (ground arith)
