-- ===== src/Wifi/Driver/Mcc.antt =====
-- The command "mcc" of mediatek_driver_cmd_nl80211.c, which switches the interfaces between one
-- channel and two.
use android_device_gionee_p.Common.{
  ℕ, ◌<◌, ◌≡◌, ◌^◌, refl, ap, ◌∙◌, List, [], ◌∷◌, ◌++◌, Bool, true, false, some, arith, ◌==◌, not,
  map, if◌then◌else◌,
}
use android_device_gionee_p.Common.Int.{pos, eqb_ℤ}
use android_device_gionee_p.Format.{codes, decimal}
use android_device_gionee_p.Wifi.Strings.{
  behind_blank, starts_with_nocase, starts_with, equals_nocase,
}
use android_device_gionee_p.Wifi.Strings.Numbers.{strtol-decimal}
use android_device_gionee_p.Wifi.Parse.{command_of, tuning_command_of, optional_command_of}
use android_device_gionee_p.Wifi.Driver.{Platform, Driver, Iface, returned, Bss}
use android_device_gionee_p.Wifi.Driver.Commands.{set_concurrent, set_mcc, mcc_at}
use android_device_gionee_p.Wifi.Driver.Dispatch.{carry_out, driver_cmd}
use android_device_gionee_p.Wifi.Driver.Filters.{IsUp, driver_cmd-up}

-- An interface on two channels, or on one.
abbrev pub on_channels : Bool → Iface → Iface
on_channels two i = record { num_multichan_concurrent = if two then 2 else 0; p2p_concurrent = two }

set_concurrent-map : (on : Bool) (is : List Iface) → set_concurrent on is ≡ map (on_channels on) is
unfolding set_concurrent
set_concurrent-map on [] = refl
set_concurrent-map on (i ∷ rest) = ap (λ is. on_channels on i ∷ is) (set_concurrent-map on rest)

switch_of : (n : ℕ) → (if eqb_ℤ (pos n) (pos 0) then false else true) ≡ not (n == 0)
switch_of n = ground arith

module _ (os : Platform) (bss : Bss) (buflen : ℕ) (d : Driver) where
  switched :
      (n : ℕ)
      → bss.is_ap0 ≡ false
      → bss.has_drv_priv ≡ true
      → os.config.p2p_sigma ≡ true
      → carry_out os bss buflen (command_of os.config (codes "mcc " ++ decimal n)) d
        ≡ mcc_at (some (decimal n)) d
  unfolding carry_out command_of tuning_command_of optional_command_of starts_with_nocase
      starts_with equals_nocase behind_blank
  switched n station priv built = rw (built, station, priv) refl

  -- "mcc N", with N written in decimal and below 2^31, on an interface that is up, is not "ap0" and
  -- has its driver data, in a build with CONFIG_MTK_P2P_SIGMA: it returns 0, and every interface is
  -- set to two channels and marked as concurrent, or, when N is 0, to none and not marked. Nothing
  -- is sent.
  pub mcc_lem :
      (n : ℕ)
      → IsUp bss
      → bss.is_ap0 ≡ false
      → bss.has_drv_priv ≡ true
      → os.config.p2p_sigma ≡ true
      → n < 2 ^ 31
      → let (res, d') = driver_cmd os bss (codes "mcc " ++ decimal n) buflen d in
        (res ≡ returned (pos 0))
        × (d'.ifaces ≡ map (on_channels (not (n == 0))) d.ifaces)
        × (d'.radio ≡ d.radio)
  unfolding mcc_at set_mcc
  mcc_lem n up station priv built h =
      rw
        (driver_cmd-up os bss (codes "mcc " ++ decimal n) buflen d up
          ∙ switched n station priv built)
        (
          refl,
          ap (λ z. set_concurrent (if eqb_ℤ z (pos 0) then false else true) d.ifaces)
                (strtol-decimal n h).1
              ∙ set_concurrent-map _ d.ifaces
              ∙ ap (λ on. map (on_channels on) d.ifaces) (switch_of n),
          refl,
        )
