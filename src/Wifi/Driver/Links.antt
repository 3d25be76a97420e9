-- ===== src/Wifi/Driver/Links.antt =====
-- The command "GET_STA_LINK_DETECT" of mediatek_driver_cmd_nl80211.c from its text to its report.
use android_device_gionee_p.Common.{
  ℕ, suc, ◌<◌, ◌≡◌, refl, ap, ◌∙◌, List, [], ◌∷◌, true, false, arith, if◌then◌else◌, ◌==◌,
}
use android_device_gionee_p.Common.Int.{ℤ, pos, ltb_ℤ}
use android_device_gionee_p.Format.{codes, stored}
use android_device_gionee_p.Wifi.Netlink.{Bytes}
use android_device_gionee_p.Wifi.Strings.{starts_with_nocase}
use android_device_gionee_p.Wifi.LinkDetect.{print_link_detect, link_entries}
use android_device_gionee_p.Wifi.LinkDetect.Report.{report, print_link_detect_lem}
use android_device_gionee_p.Wifi.Printer.Laws.{Reaches}
use android_device_gionee_p.Wifi.TestMode.{
  exchanged, get_sta_link_detect, testmode, on_answer, wpas_get_sta_link_detect, handler_for,
}
use android_device_gionee_p.Wifi.TestMode.Sent.{received_links, handle_all-received_links}
use android_device_gionee_p.Wifi.Parse.{command_of}
use android_device_gionee_p.Wifi.Driver.{Platform, Driver, returned, Bss}
use android_device_gionee_p.Wifi.Driver.Commands.{print_links, wpa_driver_get_sta_link_detect}
use android_device_gionee_p.Wifi.Driver.Dispatch.{carry_out, driver_cmd}
use android_device_gionee_p.Wifi.Driver.Filters.{IsUp, driver_cmd-up}

nonzero : {n : ℕ} → 0 < n → (n == 0) ≡ false
nonzero h = ground arith

module _ (os : Platform) (bss : Bss) (buflen : ℕ) (d : Driver) where
  asked :
      bss.is_ap0 ≡ false
      → os.config.poor_link_detect ≡ true
      → carry_out os bss buflen (command_of os.config (codes "GET_STA_LINK_DETECT")) d
        ≡ wpa_driver_get_sta_link_detect os buflen d
  unfolding carry_out command_of starts_with_nocase
  asked station built = rw (built, station) refl

  printed :
      (result : ℤ) (msgs : List Bytes)
      → os.config.poor_link_detect ≡ true
      → d.radio.answer d.radio.attempts ≡ exchanged result msgs
      → ltb_ℤ result (pos 0) ≡ false
      → let s = received_links os.nl msgs (os.stack_link_detect d.calls) in
        let (n, text) = print_link_detect s buflen in
        let (res, d') = wpa_driver_get_sta_link_detect os buflen d in
        (res ≡ returned (pos n)) × (d'.buf ≡ (if buflen == 0 then d.buf else text))
  unfolding wpa_driver_get_sta_link_detect print_links wpas_get_sta_link_detect testmode on_answer
      handler_for
  printed result msgs built e good =
      rw (e, on_answer)
        (rw (good, print_links)
          (rw built (
            rw
              (handle_all-received_links os.nl msgs (record d.radio {
                attempts = suc d.radio.attempts;
                sent =
                    get_sta_link_detect
                      (record { index = 0x01000020; buflen = os.sizes.link_detect_size })
                    ∷ d.radio.sent;
                sta_link_detect = os.stack_link_detect d.calls;
              }))
              (refl, refl))))

  -- "GET_STA_LINK_DETECT" in a build with CONFIG_MTK_POOR_LINK_DETECT, on an interface that is up
  -- and is not "ap0", into a buffer of at least one byte, when the exchange succeeds: the handler
  -- reads every message that came back in turn, the buffer holds what one `snprintf` of all the
  -- counts would store, and the result counts the first lines that fit together: they are all the
  -- lines, or one more would not fit.
  pub get_sta_link_detect_lem :
      (result : ℤ) (msgs : List Bytes)
      → IsUp bss
      → bss.is_ap0 ≡ false
      → os.config.poor_link_detect ≡ true
      → d.radio.answer d.radio.attempts ≡ exchanged result msgs
      → ltb_ℤ result (pos 0) ≡ false
      → 0 < buflen
      → let s = received_links os.nl msgs (os.stack_link_detect d.calls) in
        let n = (print_link_detect s buflen).0 in
        let (res, d') = driver_cmd os bss (codes "GET_STA_LINK_DETECT") buflen d in
        (res ≡ returned (pos n))
        × (d'.buf ≡ stored buflen (report s))
        × ((k : ℕ) × Reaches buflen n (link_entries s) [] k)
  get_sta_link_detect_lem result msgs up station built e good room =
      let s = received_links os.nl msgs (os.stack_link_detect d.calls) in
      let (whole, reached) = print_link_detect_lem s buflen room in
      let (res, text) = printed result msgs built e good in
      rw (driver_cmd-up os bss (codes "GET_STA_LINK_DETECT") buflen d up ∙ asked station built) (
        res,
        text ∙ ap (λ b. if b then d.buf else (print_link_detect s buflen).1) (nonzero room) ∙ whole,
        reached,
      )
