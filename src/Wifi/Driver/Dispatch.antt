-- ===== src/Wifi/Driver/Dispatch.antt =====
-- The commands of `CONFIG_MTK_P2P_SIGMA`, and `wpa_driver_nl80211_driver_cmd` of
-- mediatek_driver_cmd_nl80211.c itself.
use android_device_gionee_p.Common.{ℕ, Option, none, some, if◌then◌else◌, ◌&&◌, ◌||◌}
use android_device_gionee_p.Common.Int.{ℤ, pos, negsuc}
use android_device_gionee_p.Format.{Text, codes}
use android_device_gionee_p.Wifi.Strings.{behind_blank, strtol, atoi}
use android_device_gionee_p.Wifi.Netlink.{Bytes}
use android_device_gionee_p.Wifi.TestMode.Wapi.{set_wapi_key, send_msg}
use android_device_gionee_p.Wifi.TestMode.{Radio, sta_block, sta_unblock, wpas_p2p_sigma_test_mode}
use android_device_gionee_p.Wifi.Parse.{
  Command, power_mode, sta_link_detect, mac_addr, start, stop, get_sta_statistics_of, country,
  get_power, get_rts, set_rts, rxfilter_add, rxfilter_remove, smt_rate, rxfilter_stop,
  rxfilter_start, smt_test_on, smt_test_off, btcoex, block, unblock, mcc, p2p_set_opps,
  p2p_set_power_save, p2p_set_sleep, p2p_set_sleep_all, set_wapi, send_wapi, unsupported,
  command_of,
}
use android_device_gionee_p.Wifi.Driver.{
  Platform, returned, undefined, Action, return, Bss, with_wpa_s, on_radio_dropped, start_iface,
  stop_iface, mac_addr_text, set_country_at,
}
use android_device_gionee_p.Wifi.Driver.Commands.{
  mcc_at, software_command, number_command, zero_or_fails, wpa_driver_get_sta_statistics,
  wpa_driver_get_sta_link_detect,
}

-- `cmd2`
abbrev pub all_addrs : Text
all_addrs = codes "ff:ff:ff:ff:ff:ff \"\""

module _ (os : Platform) where
  -- `wpas_p2p_sigma_test_mode` with its result dropped, and the result 0 that `len` still is.
  abbrev pub sigma : ℤ → ℤ → Action
  sigma index value =
      on_radio_dropped (wpas_p2p_sigma_test_mode os.nl os.config os.sizes index value)

  -- The blank behind the address is written through, so there has to be one. The SSID behind it
  -- is only logged.
  unfoldable pub sigma_behind_ssid : ℤ → ℤ → Option Text → Action
  sigma_behind_ssid index value none d = (undefined, d)
  sigma_behind_ssid index value (some ssid) d = sigma index value d

  abbrev pub sigma_behind_addr : ℤ → ℤ → Text → Option Bytes → Action
  sigma_behind_addr index value str none d = (returned (negsuc 0), d)
  sigma_behind_addr index value str (some addr) d =
      sigma_behind_ssid index value (behind_blank str) d

  unfoldable pub set_opps_behind : ℤ → Option Text → Action
  unfolding sigma_behind_ssid
  set_opps_behind window none d = (undefined, d)
  set_opps_behind window (some str) d =
      sigma_behind_addr (pos 107) window str (os.hwaddr_aton str) d

  unfoldable pub p2p_ctrl_iface_set_opps : Text → Action
  unfolding set_opps_behind
  p2p_ctrl_iface_set_opps cmd d = set_opps_behind (atoi cmd) (behind_blank cmd) d

  unfoldable pub p2p_ctrl_iface_set_power_save : Text → Action
  p2p_ctrl_iface_set_power_save cmd d = sigma (pos 108) (atoi cmd) d

  unfoldable pub p2p_ctrl_iface_set_sleep : Text → Action
  unfolding sigma_behind_ssid
  p2p_ctrl_iface_set_sleep cmd d = sigma_behind_addr (pos 106) (pos 0) cmd (os.hwaddr_aton cmd) d

  -- The two tests in front of `mcc`'s own: `wpa_s->drv_priv`, and the blank.
  abbrev pub mcc_command : Bss → Text → Action
  mcc_command bss cmd d =
      if bss.has_drv_priv then mcc_at (behind_blank cmd) d else (returned (negsuc 0), d)

  unfoldable pub wapi_result : Option (ℤ × Radio) → Action
  wapi_result none d = (undefined, d)
  wapi_result (some (ret, r)) d = (returned ret, record d { radio = r })

  -- The branches of the function; -1 stays in `ret` where a branch does not set it. The calls that
  -- `get_power`, `get_rts` and `set_rts` were for are comments.
  unfoldable pub carry_out : Bss → ℕ → Command → Action
  unfolding p2p_ctrl_iface_set_opps p2p_ctrl_iface_set_power_save p2p_ctrl_iface_set_sleep
  carry_out bss buflen power_mode = return (negsuc 0)
  carry_out bss buflen (get_sta_statistics_of addr) =
      with_wpa_s bss (wpa_driver_get_sta_statistics os addr buflen)
  carry_out bss buflen sta_link_detect = with_wpa_s bss (wpa_driver_get_sta_link_detect os buflen)
  carry_out bss buflen mac_addr = with_wpa_s bss (mac_addr_text os bss buflen)
  carry_out bss buflen (country alpha2) = set_country_at os alpha2
  carry_out bss buflen start = start_iface os
  carry_out bss buflen stop = stop_iface os bss
  carry_out bss buflen get_power = return (negsuc 0)
  carry_out bss buflen get_rts = return (negsuc 0)
  carry_out bss buflen set_rts = return (negsuc 0)
  carry_out bss buflen (rxfilter_add cp) = number_command os 0x9F000000 0x00900200 (strtol cp)
  carry_out bss buflen (rxfilter_remove cp) = number_command os 0x9F000000 0x00900300 (strtol cp)
  carry_out bss buflen rxfilter_stop = software_command os 0x9F000000 0x00900000
  carry_out bss buflen rxfilter_start = software_command os 0x9F000000 0x00900100
  carry_out bss buflen btcoex = return (pos 0)
  carry_out bss buflen (smt_rate cp) = number_command os 0xFFFF0123 0 (strtol cp)
  carry_out bss buflen smt_test_on = software_command os 0xFFFF1234 0
  carry_out bss buflen smt_test_off = software_command os 0xFFFF1235 0
  carry_out bss buflen (block addr) =
      zero_or_fails os (sta_block os.nl os.config os.sizes (os.hwaddr_aton addr))
  carry_out bss buflen (unblock addr) =
      zero_or_fails os (sta_unblock os.nl os.config os.sizes (os.hwaddr_aton addr))
  carry_out bss buflen (mcc cmd) = with_wpa_s bss (mcc_command bss cmd)
  carry_out bss buflen (p2p_set_opps cmd) = with_wpa_s bss (p2p_ctrl_iface_set_opps cmd)
  carry_out bss buflen (p2p_set_power_save cmd) = with_wpa_s bss (p2p_ctrl_iface_set_power_save cmd)
  carry_out bss buflen (p2p_set_sleep cmd) = with_wpa_s bss (p2p_ctrl_iface_set_sleep cmd)
  carry_out bss buflen p2p_set_sleep_all = with_wpa_s bss (p2p_ctrl_iface_set_sleep all_addrs)
  carry_out bss buflen set_wapi =
      λ d. wapi_result (set_wapi_key os.nl os.config os.sizes os.wapi_key d.radio) d
  carry_out bss buflen send_wapi = return (send_msg os.wapi_msg_len)
  carry_out bss buflen unsupported = return (negsuc 0)

  unfoldable pub driver_cmd : Bss → Text → ℕ → Action
  unfolding carry_out
  driver_cmd bss cmd buflen d =
      if bss.has_drv && bss.has_ctx && (bss.is_ap0 || bss.has_conf)
      then carry_out bss buflen (command_of os.config cmd) d
      else (returned (negsuc 0), d)
