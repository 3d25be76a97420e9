-- ===== src/Wifi/Driver/Safety.antt =====
-- Where `wpa_driver_nl80211_driver_cmd` of mediatek_driver_cmd_nl80211.c stays inside of defined
-- behaviour: it returns, without reading `wpa_s` uninitialised and without leaving an array.
use android_device_gionee_p.Common.{
  ◌*◌, ltb, ℕ, ◌≤◌, ◌≡◌, Bool, true, false, Option, some, none, arith, ◌&&◌, ◌||◌, if◌then◌else◌,
  length, inl, inr, Bool-cases,
}
use android_device_gionee_p.Common.Int.{ℤ, pos, negsuc}
use android_device_gionee_p.Format.{Text}
use android_device_gionee_p.Wifi.Netlink.{Bytes}
use android_device_gionee_p.Wifi.Strings.{behind_blank, strtol, atoi}
use android_device_gionee_p.Wifi.Parse.{
  Command, sta_link_detect, mac_addr, start, stop, get_sta_statistics_of, country, rxfilter_add,
  rxfilter_remove, smt_rate, rxfilter_stop, rxfilter_start, smt_test_on, smt_test_off, block,
  unblock, mcc, p2p_set_opps, p2p_set_power_save, p2p_set_sleep, p2p_set_sleep_all, command_of,
}
use android_device_gionee_p.Wifi.Driver.{
  Platform, Driver, on_radio, Result, returned, undefined, Bss, set_country_at, set_country,
  send_country, start_iface, stop_iface, set_iface_flags, mac_addr_text,
}
use android_device_gionee_p.Wifi.Driver.Commands.{
  mcc_at, number_command, software_command, get_statistics, wpa_driver_get_sta_statistics,
  print_statistics, print_links, wpa_driver_get_sta_link_detect, fresh_statistics,
  fresh_link_detect,
}
use android_device_gionee_p.Wifi.TestMode.{wpas_get_sta_statistics, wpas_get_sta_link_detect}
use android_device_gionee_p.Wifi.Driver.Dispatch.{
  wapi_result, carry_out, driver_cmd, sigma_behind_ssid, sigma_behind_addr, set_opps_behind,
  p2p_ctrl_iface_set_opps, p2p_ctrl_iface_set_power_save, p2p_ctrl_iface_set_sleep, all_addrs,
}
use android_device_gionee_p.Wifi.TestMode.Wapi.{in_bounds, set_wapi_key}
use android_device_gionee_p.Wifi.Parse.{set_wapi}

abbrev pub IsReturned : Result → Type 0
IsReturned (returned ret) = Unit {0}
IsReturned undefined = ⊥

abbrev pub HasBlank : Option Text → Type 0
HasBlank none = ⊥
HasBlank (some t) = Unit {0}

abbrev pub HasSecondBlank : Option Text → Type 0
HasSecondBlank none = ⊥
HasSecondBlank (some t) = HasBlank (behind_blank t)

-- What a command needs besides an initialised `wpa_s`: a country of at most two bytes behind
-- "COUNTRY ", a blank where the code looks for one without a test, and a key that fits its fields.
unfoldable pub IsSound : Platform → Command → Type 0
IsSound os (country none) = ⊥
IsSound os (country (some alpha2)) = length alpha2 ≤ 2
IsSound os (p2p_set_opps cmd) = HasSecondBlank (behind_blank cmd)
IsSound os (p2p_set_sleep cmd) = HasBlank (behind_blank cmd)
IsSound os set_wapi = in_bounds os.sizes os.wapi_key ≡ true
IsSound os _ = Unit {0}

module _ (os : Platform) where
  print_statistics-IsReturned :
      (ret : ℤ) (buflen : ℕ) (d : Driver) → IsReturned (print_statistics os ret buflen d).0
  unfolding print_statistics
  print_statistics-IsReturned ret buflen d = ground arith

  print_links-IsReturned :
      (ret : ℤ) (buflen : ℕ) (d : Driver) → IsReturned (print_links os ret buflen d).0
  unfolding print_links
  print_links-IsReturned ret buflen d = ground arith

  get_statistics-IsReturned :
      (addr : Option Bytes) (buflen : ℕ) (d : Driver)
      → IsReturned (get_statistics os addr buflen d).0
  unfolding get_statistics
  get_statistics-IsReturned none buflen d = tt
  get_statistics-IsReturned (some addr) buflen d =
      let (ret, e) =
        on_radio (wpas_get_sta_statistics os.nl os.config os.sizes (some addr))
          (fresh_statistics os d) in
      print_statistics-IsReturned ret buflen e

  link_detect-IsReturned :
      (buflen : ℕ) (d : Driver) → IsReturned (wpa_driver_get_sta_link_detect os buflen d).0
  unfolding wpa_driver_get_sta_link_detect
  link_detect-IsReturned buflen d =
      let (ret, e) =
        on_radio (wpas_get_sta_link_detect os.nl os.config os.sizes) (fresh_link_detect os d) in
      print_links-IsReturned ret buflen e

  number_command-IsReturned :
      (adr offset : ℕ) (n : Option ℤ) (d : Driver) → IsReturned (number_command os adr offset n d).0
  unfolding number_command software_command
  number_command-IsReturned adr offset none d = tt
  number_command-IsReturned adr offset (some n) d = tt

  country-IsReturned :
      (alpha2 : Text) (d : Driver)
      → length alpha2 ≤ 2
      → IsReturned (set_country_at os (some alpha2) d).0
  unfolding set_country_at set_country send_country
  country-IsReturned alpha2 d h = ground arith

  mcc_at-IsReturned : (value : Option Text) (d : Driver) → IsReturned (mcc_at value d).0
  unfolding mcc_at
  mcc_at-IsReturned none d = tt
  mcc_at-IsReturned (some value) d = tt

  behind_ssid-IsReturned :
      (index value : ℤ) (ssid : Option Text) (d : Driver)
      → HasBlank ssid
      → IsReturned (sigma_behind_ssid os index value ssid d).0
  unfolding sigma_behind_ssid
  behind_ssid-IsReturned index value none d h = absurd h
  behind_ssid-IsReturned index value (some ssid) d h = tt

  behind_addr-IsReturned :
      (index value : ℤ) (str : Text) (addr : Option Bytes) (d : Driver)
      → HasBlank (behind_blank str)
      → IsReturned (sigma_behind_addr os index value str addr d).0
  behind_addr-IsReturned index value str none d h = tt
  behind_addr-IsReturned index value str (some addr) d h =
      behind_ssid-IsReturned index value (behind_blank str) d h

  set_opps-IsReturned :
      (window : ℤ) (str : Option Text) (d : Driver)
      → HasSecondBlank str
      → IsReturned (set_opps_behind os window str d).0
  unfolding set_opps_behind
  set_opps-IsReturned window none d h = absurd h
  set_opps-IsReturned window (some str) d h =
      behind_addr-IsReturned (pos 107) window str (os.hwaddr_aton str) d h

  stop_iface-IsReturned :
      (bss : Bss) (d : Driver) → bss.is_ap0 ≡ false → IsReturned (stop_iface os bss d).0
  unfolding stop_iface set_iface_flags
  stop_iface-IsReturned bss d station = ground arith

  mcc-IsReturned :
      (test : Bool) (value : Option Text) (d : Driver)
      → IsReturned (if test then mcc_at value d else (returned (negsuc 0), d)).0
  mcc-IsReturned true value d = mcc_at-IsReturned value d
  mcc-IsReturned false value d = tt

  set_wapi-IsReturned :
      (d : Driver)
      → in_bounds os.sizes os.wapi_key ≡ true
      → IsReturned (wapi_result os (set_wapi_key os.nl os.config os.sizes os.wapi_key d.radio) d).0
  unfolding wapi_result set_wapi_key
  set_wapi-IsReturned d h =
      elim (Bool-cases (ltb (os.sizes.iw_encode_seq_max_size * 2) os.wapi_key.seq_len)) [
        | inl long ↦ rw (long, set_wapi_key) tt
        | inr short ↦ rw (short, set_wapi_key) (rw (h, set_wapi_key) tt)
      ]

  carry_out-IsReturned :
      (bss : Bss) (buflen : ℕ) (c : Command) (d : Driver)
      → bss.is_ap0 ≡ false
      → IsSound os c
      → IsReturned (carry_out os bss buflen c d).0
  unfolding carry_out p2p_ctrl_iface_set_opps p2p_ctrl_iface_set_power_save p2p_ctrl_iface_set_sleep
      wpa_driver_get_sta_statistics start_iface set_iface_flags mac_addr_text IsSound
      software_command behind_blank
  carry_out-IsReturned bss buflen (get_sta_statistics_of addr) d station h =
      rw station (get_statistics-IsReturned (os.hwaddr_aton addr) buflen d)
  carry_out-IsReturned bss buflen sta_link_detect d station h =
      rw station (link_detect-IsReturned buflen d)
  carry_out-IsReturned bss buflen mac_addr d station h = rw station tt
  carry_out-IsReturned bss buflen (country none) d station h = absurd h
  carry_out-IsReturned bss buflen (country (some alpha2)) d station h =
      country-IsReturned alpha2 d h
  carry_out-IsReturned bss buflen start d station h = tt
  carry_out-IsReturned bss buflen stop d station h = stop_iface-IsReturned bss d station
  carry_out-IsReturned bss buflen (rxfilter_add cp) d station h =
      number_command-IsReturned _ _ (strtol cp) d
  carry_out-IsReturned bss buflen (rxfilter_remove cp) d station h =
      number_command-IsReturned _ _ (strtol cp) d
  carry_out-IsReturned bss buflen (smt_rate cp) d station h =
      number_command-IsReturned _ _ (strtol cp) d
  carry_out-IsReturned bss buflen rxfilter_stop d station h = tt
  carry_out-IsReturned bss buflen rxfilter_start d station h = tt
  carry_out-IsReturned bss buflen smt_test_on d station h = tt
  carry_out-IsReturned bss buflen smt_test_off d station h = tt
  carry_out-IsReturned bss buflen (block addr) d station h = tt
  carry_out-IsReturned bss buflen (unblock addr) d station h = tt
  carry_out-IsReturned bss buflen (mcc cmd) d station h =
      rw station (mcc-IsReturned bss.has_drv_priv (behind_blank cmd) d)
  carry_out-IsReturned bss buflen (p2p_set_opps cmd) d station h =
      rw station (set_opps-IsReturned (atoi cmd) (behind_blank cmd) d h)
  carry_out-IsReturned bss buflen (p2p_set_power_save cmd) d station h = rw station tt
  carry_out-IsReturned bss buflen (p2p_set_sleep cmd) d station h =
      rw station (behind_addr-IsReturned _ _ cmd (os.hwaddr_aton cmd) d h)
  carry_out-IsReturned bss buflen p2p_set_sleep_all d station h =
      rw station (behind_addr-IsReturned _ _ all_addrs (os.hwaddr_aton all_addrs) d tt)
  carry_out-IsReturned bss buflen set_wapi d station h = set_wapi-IsReturned d h
  carry_out-IsReturned bss buflen _ d station h = tt

  -- On an interface other than "ap0", whatever else is missing, a command is defined and returns,
  -- if a country code that comes with it has two bytes at most, and a blank stands behind the
  -- address of "p2p_set_sleep " and behind both the number and the address of "p2p_set_opps ", and
  -- the key of "set-wapi-key" fits the fields that it is copied to.
  pub driver_cmd-IsReturned :
      (bss : Bss) (cmd : Text) (buflen : ℕ) (d : Driver)
      → bss.is_ap0 ≡ false
      → IsSound os (command_of os.config cmd)
      → IsReturned (driver_cmd os bss cmd buflen d).0
  unfolding driver_cmd
  driver_cmd-IsReturned bss cmd buflen d station h =
      elim (Bool-cases (bss.has_drv && bss.has_ctx && (bss.is_ap0 || bss.has_conf))) [
        | inl up ↦
            rw (up, driver_cmd)
              (carry_out-IsReturned bss buflen (command_of os.config cmd) d station h)
        | inr down ↦ rw (down, driver_cmd) tt
      ]
