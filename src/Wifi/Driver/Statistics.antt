-- ===== src/Wifi/Driver/Statistics.antt =====
-- The command "GET_STA_STATISTICS" of mediatek_driver_cmd_nl80211.c from its text to its report.
use android_device_gionee_p.Common.{
  ℕ, suc, ◌<◌, ◌≡◌, refl, ap, ◌∙◌, List, ◌∷◌, ◌++◌, false, some, arith, ltb, if◌then◌else◌, length,
  ◌==◌,
}
use android_device_gionee_p.Common.Int.{ℤ, pos, ltb_ℤ}
use android_device_gionee_p.Format.{Text, codes, stored}
use android_device_gionee_p.Wifi.Netlink.{Bytes}
use android_device_gionee_p.Wifi.Strings.{starts_with_nocase}
use android_device_gionee_p.Wifi.Print.{print_sta_statistics}
use android_device_gionee_p.Wifi.Print.Report.{report, print_sta_statistics_lem}
use android_device_gionee_p.Wifi.TestMode.{
  exchanged, testmode, on_answer, get_sta_statistics, wpas_get_sta_statistics, handler_for,
}
use android_device_gionee_p.Wifi.TestMode.Sent.{received, handle_all-received}
use android_device_gionee_p.Wifi.Parse.{command_of}
use android_device_gionee_p.Wifi.Driver.{Platform, Driver, returned, Bss}
use android_device_gionee_p.Wifi.Driver.Commands.{
  print_statistics, get_statistics, wpa_driver_get_sta_statistics,
}
use android_device_gionee_p.Wifi.Driver.Dispatch.{carry_out, driver_cmd}
use android_device_gionee_p.Wifi.Driver.Filters.{IsUp, driver_cmd-up}

nonzero : {n : ℕ} → 0 < n → (n == 0) ≡ false
nonzero h = ground arith

module _ (os : Platform) (bss : Bss) (addr : Text) (mac : Bytes) (buflen : ℕ) (d : Driver) where
  asked :
      bss.is_ap0 ≡ false
      → os.hwaddr_aton addr ≡ some mac
      → carry_out os bss buflen (command_of os.config (codes "GET_STA_STATISTICS " ++ addr)) d
        ≡ get_statistics os (some mac) buflen d
  unfolding carry_out command_of starts_with_nocase wpa_driver_get_sta_statistics
  asked station known = rw (station, known) refl

  printed :
      (result : ℤ) (msgs : List Bytes)
      → d.radio.answer d.radio.attempts ≡ exchanged result msgs
      → ltb_ℤ result (pos 0) ≡ false
      → let s = received os.nl msgs (os.stack_statistics d.calls) in
        let (n, text) = print_sta_statistics os.mac_text s buflen in
        let (res, d') = get_statistics os (some mac) buflen d in
        (res ≡ returned (pos n)) × (d'.buf ≡ (if buflen == 0 then d.buf else text))
  unfolding get_statistics print_statistics wpas_get_sta_statistics testmode on_answer handler_for
  printed result msgs e good =
      rw (e, on_answer)
        (rw (good, print_statistics)
          (rw
            (handle_all-received os.nl msgs (record d.radio {
              attempts = suc d.radio.attempts;
              sent =
                  get_sta_statistics
                    (record { index = 0x01000010; buflen = os.sizes.statistics_size }) mac
                  ∷ d.radio.sent;
              sta_statistics = os.stack_statistics d.calls;
            }))
            (refl, refl)))

  -- "GET_STA_STATISTICS" with an address that `hwaddr_aton` reads, on an interface that is up and
  -- is not "ap0", into a buffer of at least one byte, when the exchange succeeds: the handler reads
  -- every message that came back in turn, the buffer holds what one `snprintf` of the whole report
  -- on the statistics would store, and the result is the report's length where it fits with its
  -- NUL, and 0 where it was cut.
  pub get_sta_statistics_lem :
      (result : ℤ) (msgs : List Bytes)
      → IsUp bss
      → bss.is_ap0 ≡ false
      → os.hwaddr_aton addr ≡ some mac
      → d.radio.answer d.radio.attempts ≡ exchanged result msgs
      → ltb_ℤ result (pos 0) ≡ false
      → 0 < buflen
      → let text = report os.mac_text (received os.nl msgs (os.stack_statistics d.calls)) in
        let (res, d') = driver_cmd os bss (codes "GET_STA_STATISTICS " ++ addr) buflen d in
        (res ≡ returned (pos (if ltb (length text) buflen then length text else 0)))
        × (d'.buf ≡ stored buflen text)
  get_sta_statistics_lem result msgs up station known e good room =
      let s = received os.nl msgs (os.stack_statistics d.calls) in
      let whole = print_sta_statistics_lem os.mac_text s buflen room in
      rw
        (driver_cmd-up os bss (codes "GET_STA_STATISTICS " ++ addr) buflen d up
          ∙ asked station known)
        (let (res, text) = printed result msgs e good in
          (
            res ∙ ap (λ (w : ℕ × Text). returned (pos w.0)) whole,
            text
                ∙ ap (λ b. if b then d.buf else (print_sta_statistics os.mac_text s buflen).1)
                    (nonzero room)
                ∙ ap (λ (w : ℕ × Text). w.1) whole,
          ))
