-- ===== src/Wifi/Driver/Country.antt =====
-- The command "COUNTRY" of mediatek_driver_cmd_nl80211.c.
use android_device_gionee_p.Common.{
  ℕ, suc, ◌≡◌, refl, ◌∙◌, ◌∷◌, ◌++◌, false, arith, leb, if◌then◌else◌, length,
}
use android_device_gionee_p.Common.Int.{pos, ltb_ℤ}
use android_device_gionee_p.Format.{Text, codes}
use android_device_gionee_p.Wifi.Strings.{starts_with_nocase, starts_with, equals_nocase}
use android_device_gionee_p.Wifi.Parse.{command_of}
use android_device_gionee_p.Wifi.Driver.{
  Platform, Driver, returned, undefined, Bss, private_ioctl, set_country_at, set_country,
  send_country,
}
use android_device_gionee_p.Wifi.Driver.Dispatch.{carry_out, driver_cmd}
use android_device_gionee_p.Wifi.Driver.Filters.{IsUp, driver_cmd-up}

module _ (os : Platform) (bss : Bss) (buflen : ℕ) (d : Driver) where
  sent_country :
      (alpha2 : Text)
      → carry_out os bss buflen (command_of os.config (codes "COUNTRY " ++ alpha2)) d
        ≡ set_country os alpha2 d
  unfolding carry_out command_of starts_with_nocase starts_with equals_nocase set_country_at
  sent_country alpha2 = refl

  -- "COUNTRY XY" on an interface that is up, when there is a socket: with at most two bytes behind
  -- the blank, the command's own text goes to the driver in one private call, and the result is
  -- that call's if it is negative and 0 otherwise. With more bytes the text overflows its buffer.
  pub country_lem :
      (alpha2 : Text)
      → IsUp bss
      → ltb_ℤ (os.answer d.calls) (pos 0) ≡ false
      → let sent = os.answer (suc d.calls) in
        let cmd = codes "COUNTRY " ++ alpha2 in
        let (res, d') = driver_cmd os bss cmd buflen d in
        (res ≡ (
          if leb (length alpha2) 2
          then returned (if ltb_ℤ sent (pos 0) then sent else pos 0)
          else undefined))
        × (d'.effects
            ≡ (if leb (length alpha2) 2 then private_ioctl cmd ∷ d.effects else d.effects))
  unfolding set_country send_country
  country_lem alpha2 up socket =
      rw (driver_cmd-up os bss (codes "COUNTRY " ++ alpha2) buflen d up ∙ sent_country alpha2)
        (ground (arith, socket))
