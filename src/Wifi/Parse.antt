-- ===== src/Wifi/Parse.antt =====
-- The tests by which `wpa_driver_nl80211_driver_cmd` of mediatek_driver_cmd_nl80211.c tells its
-- commands apart, in their order.
use android_device_gionee_p.Common.{
  ℕ, zero, suc, [], ◌∷◌, ◌&&◌, ◌||◌, Option, none, some, if◌then◌else◌,
}
use android_device_gionee_p.Format.{Text, codes}
use android_device_gionee_p.Wifi.Strings.{starts_with, starts_with_nocase, equals_nocase}
use android_device_gionee_p.Wifi.TestMode.{Config}

-- Each command with the text behind its name, where the code reads it.
pub data Command : Type 0 where
  power_mode sta_link_detect mac_addr start stop : Command
  get_sta_statistics_of : Text → Command
  -- `cmd + 8`, which is past the NUL when nothing follows the name.
  country : Option Text → Command
  get_power get_rts set_rts : Command
  rxfilter_add rxfilter_remove smt_rate : Text → Command
  rxfilter_stop rxfilter_start smt_test_on smt_test_off : Command
  btcoex : Command
  block unblock : Text → Command
  -- The whole command, in which the code looks for a blank.
  mcc : Text → Command
  p2p_set_opps p2p_set_power_save p2p_set_sleep : Text → Command
  p2p_set_sleep_all : Command
  set_wapi send_wapi : Command
  unsupported : Command

abbrev pub behind : ℕ → Text → Text
behind zero t = t
behind (suc n) [] = []
behind (suc n) (c ∷ t) = behind n t

abbrev pub country_of : Text → Option Text
country_of [] = none
country_of (c ∷ t) = some t

-- The tests behind "smt-test-off".
unfoldable pub optional_command_of : Config → Text → Command
optional_command_of config cmd =
    if starts_with (codes "STA-BLOCK ") cmd && config.hotspot_mgr
    then block (behind 10 cmd)
    else if starts_with (codes "STA-UNBLOCK ") cmd && config.hotspot_mgr
    then unblock (behind 12 cmd)
    else if starts_with_nocase (codes "set-wapi-key") cmd && config.wapi
    then set_wapi
    else if starts_with_nocase (codes "wapi-msg-send") cmd && config.wapi
    then send_wapi
    else if starts_with_nocase (codes "mcc") cmd && config.p2p_sigma
    then mcc cmd
    else if starts_with (codes "p2p_set_opps ") cmd && config.p2p_sigma
    then p2p_set_opps (behind 13 cmd)
    else if starts_with (codes "p2p_set_power_save ") cmd && config.p2p_sigma
    then p2p_set_power_save (behind 19 cmd)
    else if starts_with (codes "p2p_set_sleep ") cmd && config.p2p_sigma
    then p2p_set_sleep (behind 14 cmd)
    else if starts_with (codes "p2p_set_sleep") cmd && config.p2p_sigma
    then p2p_set_sleep_all
    else unsupported

-- The tests from "getpower" on.
unfoldable pub tuning_command_of : Config → Text → Command
unfolding optional_command_of
tuning_command_of config cmd =
    if starts_with_nocase (codes "getpower") cmd
    then get_power
    else if starts_with_nocase (codes "get-rts-threshold") cmd
    then get_rts
    else if starts_with_nocase (codes "set-rts-threshold") cmd
    then set_rts
    else if starts_with_nocase (codes "rxfilter-add") cmd
    then rxfilter_add (behind 12 cmd)
    else if starts_with_nocase (codes "rxfilter-remove") cmd
    then rxfilter_remove (behind 15 cmd)
    else if starts_with_nocase (codes "rxfilter-stop") cmd
    then rxfilter_stop
    else if starts_with_nocase (codes "rxfilter-start") cmd
    then rxfilter_start
    else if equals_nocase (codes "btcoexscan-start") cmd
        || equals_nocase (codes "btcoexscan-stop") cmd
        || starts_with_nocase (codes "btcoexmode") cmd
    then btcoex
    else if starts_with_nocase (codes "smt-rate") cmd
    then smt_rate (behind 8 cmd)
    else if starts_with_nocase (codes "smt-test-on") cmd
    then smt_test_on
    else if starts_with_nocase (codes "smt-test-off") cmd
    then smt_test_off
    else optional_command_of config cmd

unfoldable pub command_of : Config → Text → Command
unfolding tuning_command_of
command_of config cmd =
    if starts_with_nocase (codes "POWERMODE ") cmd
    then power_mode
    else if starts_with_nocase (codes "GET_STA_STATISTICS ") cmd
    then get_sta_statistics_of (behind 19 cmd)
    else if starts_with_nocase (codes "GET_STA_LINK_DETECT") cmd && config.poor_link_detect
    then sta_link_detect
    else if starts_with (codes "MACADDR") cmd
    then mac_addr
    else if starts_with_nocase (codes "COUNTRY") cmd
    then country (country_of (behind 7 cmd))
    else if equals_nocase (codes "start") cmd
    then start
    else if equals_nocase (codes "stop") cmd
    then stop
    else tuning_command_of config cmd
