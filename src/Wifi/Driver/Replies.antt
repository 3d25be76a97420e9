-- ===== src/Wifi/Driver/Replies.antt =====
-- The caller's buffer and the result of `wpa_driver_nl80211_driver_cmd` in
-- mediatek_driver_cmd_nl80211.c.
use android_device_gionee_p.Common.{if◌then◌else◌, ℕ, suc, ◌<◌, refl, ◌&&◌, ◌||◌, length}
use android_device_gionee_p.Common.Int.{pos}
use android_device_gionee_p.Format.{Text}
use android_device_gionee_p.Wifi.Strings.{behind_blank, strtol, atoi}
use android_device_gionee_p.Wifi.Parse.{
  Command, power_mode, sta_link_detect, mac_addr, start, stop, get_sta_statistics_of, country,
  get_power, get_rts, set_rts, rxfilter_add, rxfilter_remove, smt_rate, rxfilter_stop,
  rxfilter_start, smt_test_on, smt_test_off, btcoex, block, unblock, mcc, p2p_set_opps,
  p2p_set_power_save, p2p_set_sleep, p2p_set_sleep_all, set_wapi, send_wapi, unsupported,
  command_of,
}
use android_device_gionee_p.Wifi.TestMode.{sta_block, sta_unblock}
use android_device_gionee_p.Wifi.Driver.{
  Platform, Driver, Bss, start_iface, iface_up, announced_started,
}
use android_device_gionee_p.Wifi.Driver.Commands.{software_command, wpa_driver_get_sta_statistics}
use android_device_gionee_p.Wifi.Driver.Dispatch.{
  all_addrs, p2p_ctrl_iface_set_opps, p2p_ctrl_iface_set_power_save, p2p_ctrl_iface_set_sleep,
  carry_out, driver_cmd,
}
use android_device_gionee_p.Wifi.Driver.Buffer.{
  IsWithin, IsWithin-failed, IsWithin-done, when-IsWithin, reads-IsWithin,
}
use android_device_gionee_p.Wifi.Driver.Branches.{
  IsNotPositive, own_address, get_statistics-IsWithin, link_detect-IsWithin,
  number_command-IsWithin, set_iface_flags-IsWithin, stop_iface-IsWithin, country-IsWithin,
  mac_addr-IsWithin, mcc_at-IsWithin, behind_addr-IsWithin, set_opps-IsWithin, set_wapi-IsWithin,
  zero_or_fails-IsWithin, send_msg-IsWithin,
}

-- What a command takes for granted of its caller and of the platform: `linux_set_iface_flags`, the
-- first call of "start" and the last one of "stop", has a result that is 0 or negative, and the
-- text of "MACADDR" fits.
unfoldable pub IsFitting : Platform → Bss → ℕ → Driver → Command → Type 0
IsFitting os bss buflen d mac_addr = length (own_address os bss) < buflen
IsFitting os bss buflen d start = IsNotPositive (os.answer d.calls)
IsFitting os bss buflen d stop =
    IsNotPositive (os.answer (if bss.associated then suc d.calls else d.calls))
IsFitting os bss buflen d _ = Unit {0}

module _ (os : Platform) where
  carry_out-IsWithin :
      (bss : Bss) (buflen : ℕ) (c : Command) (d : Driver)
      → IsFitting os bss buflen d c
      → IsWithin buflen d (carry_out os bss buflen c d)
  unfolding IsFitting carry_out software_command p2p_ctrl_iface_set_opps
      p2p_ctrl_iface_set_power_save p2p_ctrl_iface_set_sleep wpa_driver_get_sta_statistics
      start_iface
  carry_out-IsWithin bss buflen power_mode d h = IsWithin-failed buflen d
  carry_out-IsWithin bss buflen (get_sta_statistics_of addr) d h =
      reads-IsWithin buflen bss _ d (get_statistics-IsWithin os buflen (os.hwaddr_aton addr) d)
  carry_out-IsWithin bss buflen sta_link_detect d h =
      reads-IsWithin buflen bss _ d (link_detect-IsWithin os buflen d)
  carry_out-IsWithin bss buflen mac_addr d h =
      reads-IsWithin buflen bss _ d (mac_addr-IsWithin os buflen bss d h)
  carry_out-IsWithin bss buflen (country alpha2) d h = country-IsWithin os buflen alpha2 d
  carry_out-IsWithin bss buflen start d h =
      set_iface_flags-IsWithin os buflen iface_up announced_started d h
  carry_out-IsWithin bss buflen stop d h = stop_iface-IsWithin os buflen bss d h
  carry_out-IsWithin bss buflen get_power d h = IsWithin-failed buflen d
  carry_out-IsWithin bss buflen get_rts d h = IsWithin-failed buflen d
  carry_out-IsWithin bss buflen set_rts d h = IsWithin-failed buflen d
  carry_out-IsWithin bss buflen (rxfilter_add cp) d h =
      number_command-IsWithin os buflen 0x9F000000 0x00900200 (strtol cp) d
  carry_out-IsWithin bss buflen (rxfilter_remove cp) d h =
      number_command-IsWithin os buflen 0x9F000000 0x00900300 (strtol cp) d
  carry_out-IsWithin bss buflen rxfilter_stop d h = IsWithin-done buflen _ d refl
  carry_out-IsWithin bss buflen rxfilter_start d h = IsWithin-done buflen _ d refl
  carry_out-IsWithin bss buflen btcoex d h = IsWithin-done buflen d d refl
  carry_out-IsWithin bss buflen (smt_rate cp) d h =
      number_command-IsWithin os buflen 0xFFFF0123 0 (strtol cp) d
  carry_out-IsWithin bss buflen smt_test_on d h = IsWithin-done buflen _ d refl
  carry_out-IsWithin bss buflen smt_test_off d h = IsWithin-done buflen _ d refl
  carry_out-IsWithin bss buflen (block addr) d h =
      zero_or_fails-IsWithin os buflen (sta_block os.nl os.config os.sizes (os.hwaddr_aton addr)) d
  carry_out-IsWithin bss buflen (unblock addr) d h =
      zero_or_fails-IsWithin os buflen (sta_unblock os.nl os.config os.sizes (os.hwaddr_aton addr))
        d
  carry_out-IsWithin bss buflen (mcc cmd) d h = reads-IsWithin buflen bss _ d (
      when-IsWithin buflen bss.has_drv_priv _ _ d (mcc_at-IsWithin os buflen (behind_blank cmd) d)
        (IsWithin-failed buflen d))
  carry_out-IsWithin bss buflen (p2p_set_opps cmd) d h =
      reads-IsWithin buflen bss _ d (set_opps-IsWithin os buflen (atoi cmd) (behind_blank cmd) d)
  carry_out-IsWithin bss buflen (p2p_set_power_save cmd) d h =
      reads-IsWithin buflen bss _ d (IsWithin-done buflen _ d refl)
  carry_out-IsWithin bss buflen (p2p_set_sleep cmd) d h =
      reads-IsWithin buflen bss _ d
        (behind_addr-IsWithin os buflen (pos 106) (pos 0) cmd (os.hwaddr_aton cmd) d)
  carry_out-IsWithin bss buflen p2p_set_sleep_all d h =
      reads-IsWithin buflen bss _ d
        (behind_addr-IsWithin os buflen (pos 106) (pos 0) all_addrs (os.hwaddr_aton all_addrs) d)
  carry_out-IsWithin bss buflen set_wapi d h = set_wapi-IsWithin os buflen os.wapi_key d
  carry_out-IsWithin bss buflen send_wapi d h = send_msg-IsWithin os buflen os.wapi_msg_len d
  carry_out-IsWithin bss buflen unsupported d h = IsWithin-failed buflen d

  -- Any command on any interface, when `linux_set_iface_flags` has no positive result and the text
  -- of "MACADDR" fits in the buffer, for the commands that depend on these: the buffer is as it was
  -- or holds a text with room for its NUL, and a result above 0 is at most the number of bytes in
  -- front of that NUL.
  pub driver_cmd-IsWithin :
      (bss : Bss) (cmd : Text) (buflen : ℕ) (d : Driver)
      → IsFitting os bss buflen d (command_of os.config cmd)
      → IsWithin buflen d (driver_cmd os bss cmd buflen d)
  unfolding driver_cmd
  driver_cmd-IsWithin bss cmd buflen d h =
      when-IsWithin buflen (bss.has_drv && bss.has_ctx && (bss.is_ap0 || bss.has_conf)) _ _ d
        (carry_out-IsWithin bss buflen (command_of os.config cmd) d h) (IsWithin-failed buflen d)
