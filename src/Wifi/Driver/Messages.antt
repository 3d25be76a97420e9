-- ===== src/Wifi/Driver/Messages.antt =====
-- The messages and the sockets of `wpa_driver_nl80211_driver_cmd` in mediatek_driver_cmd_nl80211.c.
use android_device_gionee_p.Common.{ℕ, ◌+◌, ◌≤◌, ◌≡◌, refl, arith, ◌&&◌, ◌||◌}
use android_device_gionee_p.Common.Int.{ℤ, pos}
use android_device_gionee_p.Format.{Text}
use android_device_gionee_p.Wifi.Strings.{behind_blank, strtol, atoi}
use android_device_gionee_p.Wifi.TestMode.Balance.{
  set_wapi_key-IsBalanced, IsBalanced, sta_block-IsBalanced, sta_unblock-IsBalanced,
}
use android_device_gionee_p.Wifi.Parse.{
  Command, power_mode, sta_link_detect, mac_addr, start, stop, get_sta_statistics_of, country,
  get_power, get_rts, set_rts, rxfilter_add, rxfilter_remove, smt_rate, rxfilter_stop,
  rxfilter_start, smt_test_on, smt_test_off, btcoex, block, unblock, mcc, p2p_set_opps,
  p2p_set_power_save, p2p_set_sleep, p2p_set_sleep_all, set_wapi, send_wapi, unsupported,
  command_of,
}
use android_device_gionee_p.Wifi.Driver.{
  Platform, Driver, returned, Bss, start_iface, mac_addr_text, iface_up, announced_started,
}
use android_device_gionee_p.Wifi.Driver.Commands.{wpa_driver_get_sta_statistics}
use android_device_gionee_p.Wifi.Driver.Dispatch.{
  all_addrs, p2p_ctrl_iface_set_opps, p2p_ctrl_iface_set_power_save, p2p_ctrl_iface_set_sleep,
  carry_out, driver_cmd,
}
use android_device_gionee_p.Wifi.Driver.Kept.{
  Kept, same, sigma-Kept, software_command-Kept, number_command-Kept, get_statistics-Kept,
  link_detect-Kept, set_iface_flags-Kept, country-Kept, stop_iface-Kept, behind_addr-Kept,
  set_opps-Kept, mcc_at-Kept, when-Kept, reads-Kept, wapi-Kept,
}

-- Only the report on a station reads past an array.
abbrev pub reports : Command → ℕ
reports (get_sta_statistics_of addr) = 1
reports _ = 0

module _ (os : Platform) where
  carry_out-Kept :
      (bss : Bss) (buflen : ℕ) (c : Command) (d : Driver)
      → Kept os (reports c) d (carry_out os bss buflen c d)
  unfolding carry_out p2p_ctrl_iface_set_opps p2p_ctrl_iface_set_power_save p2p_ctrl_iface_set_sleep
      wpa_driver_get_sta_statistics start_iface mac_addr_text
  carry_out-Kept bss buflen power_mode d = same os _ d refl refl refl
  carry_out-Kept bss buflen (get_sta_statistics_of addr) d =
      reads-Kept os bss _ d (get_statistics-Kept os (os.hwaddr_aton addr) buflen d)
  carry_out-Kept bss buflen sta_link_detect d = reads-Kept os bss _ d (link_detect-Kept os buflen d)
  carry_out-Kept bss buflen mac_addr d = reads-Kept os bss _ d (same os _ d refl refl refl)
  carry_out-Kept bss buflen (country alpha2) d = country-Kept os alpha2 d
  carry_out-Kept bss buflen start d = set_iface_flags-Kept os iface_up announced_started d
  carry_out-Kept bss buflen stop d = stop_iface-Kept os bss d
  carry_out-Kept bss buflen get_power d = same os _ d refl refl refl
  carry_out-Kept bss buflen get_rts d = same os _ d refl refl refl
  carry_out-Kept bss buflen set_rts d = same os _ d refl refl refl
  carry_out-Kept bss buflen (rxfilter_add cp) d =
      number_command-Kept os 0x9F000000 0x00900200 (strtol cp) d (omega arith)
  carry_out-Kept bss buflen (rxfilter_remove cp) d =
      number_command-Kept os 0x9F000000 0x00900300 (strtol cp) d (omega arith)
  carry_out-Kept bss buflen rxfilter_stop d =
      software_command-Kept os 0x9F000000 0x00900000 d (omega arith) (omega arith)
  carry_out-Kept bss buflen rxfilter_start d =
      software_command-Kept os 0x9F000000 0x00900100 d (omega arith) (omega arith)
  carry_out-Kept bss buflen btcoex d = same os _ d refl refl refl
  carry_out-Kept bss buflen (smt_rate cp) d =
      number_command-Kept os 0xFFFF0123 0 (strtol cp) d (omega arith)
  carry_out-Kept bss buflen smt_test_on d =
      software_command-Kept os 0xFFFF1234 0 d (omega arith) (omega arith)
  carry_out-Kept bss buflen smt_test_off d =
      software_command-Kept os 0xFFFF1235 0 d (omega arith) (omega arith)
  carry_out-Kept bss buflen (block addr) d = record {
    messages = sta_block-IsBalanced os.nl os.config os.sizes (os.hwaddr_aton addr) d.radio;
    sockets = λ ret e. refl;
    overreads = omega arith;
  }
  carry_out-Kept bss buflen (unblock addr) d = record {
    messages = sta_unblock-IsBalanced os.nl os.config os.sizes (os.hwaddr_aton addr) d.radio;
    sockets = λ ret e. refl;
    overreads = omega arith;
  }
  carry_out-Kept bss buflen (mcc cmd) d = reads-Kept os bss _ d (
      when-Kept os bss.has_drv_priv _ _ d (mcc_at-Kept os (behind_blank cmd) d)
        (same os _ d refl refl refl))
  carry_out-Kept bss buflen (p2p_set_opps cmd) d =
      reads-Kept os bss _ d (set_opps-Kept os (atoi cmd) (behind_blank cmd) d)
  carry_out-Kept bss buflen (p2p_set_power_save cmd) d =
      reads-Kept os bss _ d (sigma-Kept os (pos 108) (atoi cmd) d)
  carry_out-Kept bss buflen (p2p_set_sleep cmd) d =
      reads-Kept os bss _ d (behind_addr-Kept os (pos 106) (pos 0) cmd (os.hwaddr_aton cmd) d)
  carry_out-Kept bss buflen p2p_set_sleep_all d =
      reads-Kept os bss _ d
        (behind_addr-Kept os (pos 106) (pos 0) all_addrs (os.hwaddr_aton all_addrs) d)
  carry_out-Kept bss buflen set_wapi d =
      wapi-Kept os _ d (set_wapi_key-IsBalanced os.nl os.config os.sizes os.wapi_key d.radio)
  carry_out-Kept bss buflen send_wapi d = same os _ d refl refl refl
  carry_out-Kept bss buflen unsupported d = same os _ d refl refl refl

  driver_cmd-Kept :
      (bss : Bss) (cmd : Text) (buflen : ℕ) (d : Driver)
      → Kept os (reports (command_of os.config cmd)) d (driver_cmd os bss cmd buflen d)
  unfolding driver_cmd
  driver_cmd-Kept bss cmd buflen d =
      when-Kept os (bss.has_drv && bss.has_ctx && (bss.is_ap0 || bss.has_conf)) _ _ d
        (carry_out-Kept bss buflen (command_of os.config cmd) d) (same os _ d refl refl refl)

  -- What was balanced is so after any command on any interface.
  pub driver_cmd-IsBalanced :
      (bss : Bss) (cmd : Text) (buflen : ℕ) (d : Driver)
      → IsBalanced os.sizes d.radio
      → IsBalanced os.sizes (driver_cmd os bss cmd buflen d).1.radio
  driver_cmd-IsBalanced bss cmd buflen d = (driver_cmd-Kept bss cmd buflen d).messages

  -- A command that returns, with whatever result, leaves as many sockets open as there were.
  pub driver_cmd-sockets :
      (bss : Bss) (cmd : Text) (buflen : ℕ) (d : Driver) (ret : ℤ)
      → (driver_cmd os bss cmd buflen d).0 ≡ returned ret
      → (driver_cmd os bss cmd buflen d).1.open_sockets ≡ d.open_sockets
  driver_cmd-sockets bss cmd buflen d ret = (driver_cmd-Kept bss cmd buflen d).sockets ret

  -- Any command reads at most once past an array, and only the report on a station does so.
  pub driver_cmd-overreads :
      (bss : Bss) (cmd : Text) (buflen : ℕ) (d : Driver)
      → (driver_cmd os bss cmd buflen d).1.overreads
        ≤ reports (command_of os.config cmd) + d.overreads
  driver_cmd-overreads bss cmd buflen d = (driver_cmd-Kept bss cmd buflen d).overreads
