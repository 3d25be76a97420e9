-- ===== src/Wifi/Driver/Commands.antt =====
-- The branches of `wpa_driver_nl80211_driver_cmd` in mediatek_driver_cmd_nl80211.c, and the
-- function itself.
use android_device_gionee_p.Common.{
  ℕ, ◌+◌, ◌%◌, ◌^◌, List, [], ◌∷◌, Bool, true, false, Option, none, some, if◌then◌else◌,
}
use android_device_gionee_p.Common.Int.{ℤ, pos, negsuc, ltb_ℤ, eqb_ℤ}
use android_device_gionee_p.Common.State.{State}
use android_device_gionee_p.Format.{Text}
use android_device_gionee_p.Wifi.Netlink.{Bytes}
use android_device_gionee_p.Wifi.Strings.{atoi, to_u32}
use android_device_gionee_p.Wifi.LinkDetect.{print_link_detect}
use android_device_gionee_p.Wifi.Print.{print_sta_statistics, reads_past_reserved}
use android_device_gionee_p.Wifi.TestMode.{
  Radio, driver_sw_cmd, wpas_get_sta_statistics, wpas_get_sta_link_detect,
}
use android_device_gionee_p.Wifi.Driver.{
  Platform, Iface, Driver, returned, Action, on_radio, on_radio_dropped, called, fill_buf,
}

unfoldable pub set_concurrent : Bool → List Iface → List Iface
set_concurrent on [] = []
set_concurrent on (i ∷ rest) =
    record { num_multichan_concurrent = if on then 2 else 0; p2p_concurrent = on }
    ∷ set_concurrent on rest

-- `global->p2p->cfg->concurrent_operations`, which the loop over the interfaces sets.
abbrev pub set_operations : Bool → List Iface → Option ℕ → Option ℕ
set_operations on [] operations = operations
set_operations on (i ∷ rest) none = none
set_operations on (i ∷ rest) (some n) = some (if on then 1 else 0)

unfoldable pub set_mcc : Bool → Driver → Driver
unfolding set_concurrent
set_mcc on d = record d {
  ifaces = set_concurrent on d.ifaces;
  concurrent_operations = set_operations on d.ifaces d.concurrent_operations;
}

-- The branch "mcc", at the text behind the blank.
unfoldable pub mcc_at : Option Text → Action
unfolding set_mcc
mcc_at none d = (returned (negsuc 0), d)
mcc_at (some value) d =
    (returned (pos 0), set_mcc (if eqb_ℤ (atoi value) (pos 0) then false else true) d)

module _ (os : Platform) where
  -- The function's call of `wpa_driver_nl80211_driver_sw_cmd`, and `ret = 0`.
  unfoldable pub software_command : ℕ → ℕ → Action
  software_command adr dat = on_radio_dropped (driver_sw_cmd os.nl os.config os.sizes 1 adr dat)

  -- A number behind the name, added to `offset` in 32 bits; -1 is still in `ret` without one.
  unfoldable pub number_command : ℕ → ℕ → Option ℤ → Action
  unfolding software_command
  number_command adr offset none d = (returned (negsuc 0), d)
  number_command adr offset (some n) d = software_command adr ((to_u32 n + offset) % 2 ^ 32) d

  -- Any result other than 0 becomes -1.
  abbrev pub zero_or_fails : State Radio ℤ → Action
  zero_or_fails m d =
      let (ret, r) = m d.radio in
      (returned (if eqb_ℤ ret (pos 0) then pos 0 else negsuc 0), record d { radio = r })

  unfoldable pub print_statistics : ℤ → ℕ → Action
  print_statistics ret buflen d =
      if ltb_ℤ ret (pos 0)
      then (returned (negsuc 0), d)
      else (let (len, text) = print_sta_statistics os.mac_text d.radio.sta_statistics buflen in
          let past = reads_past_reserved os.mac_text d.radio.sta_statistics buflen in
          (returned (pos len), fill_buf buflen text (record d { overreads = past + d.overreads })))

  -- The local `sta_statistics` holds what the stack held.
  abbrev pub fresh_statistics : Driver → Driver
  fresh_statistics d = record (called d) {
    radio = record d.radio { sta_statistics = os.stack_statistics d.calls };
  }

  unfoldable pub get_statistics : Option Bytes → ℕ → Action
  unfolding print_statistics
  get_statistics none buflen d = (returned (negsuc 0), d)
  get_statistics (some addr) buflen d =
      let (ret, d') =
        on_radio (wpas_get_sta_statistics os.nl os.config os.sizes (some addr))
          (fresh_statistics d) in
      print_statistics ret buflen d'

  unfoldable pub wpa_driver_get_sta_statistics : Text → ℕ → Action
  unfolding get_statistics
  wpa_driver_get_sta_statistics addr buflen = get_statistics (os.hwaddr_aton addr) buflen

  unfoldable pub print_links : ℤ → ℕ → Action
  print_links ret buflen d =
      if ltb_ℤ ret (pos 0)
      then (returned (negsuc 0), d)
      else (let (len, text) = print_link_detect d.radio.sta_link_detect buflen in
          (returned (pos len), fill_buf buflen text d))

  abbrev pub fresh_link_detect : Driver → Driver
  fresh_link_detect d = record (called d) {
    radio = record d.radio { sta_link_detect = os.stack_link_detect d.calls };
  }

  unfoldable pub wpa_driver_get_sta_link_detect : ℕ → Action
  unfolding print_links
  wpa_driver_get_sta_link_detect buflen d =
      let (ret, d') =
        on_radio (wpas_get_sta_link_detect os.nl os.config os.sizes) (fresh_link_detect d) in
      print_links ret buflen d'
