-- ===== src/Wifi/Interface/Tests.antt =====
-- Sequences of calls of mediatek_driver_cmd_nl80211.c at concrete inputs.
use android_device_gionee_p.Common.{◌≡◌, refl, List, [], ◌∷◌, arith}
use android_device_gionee_p.Common.Int.{pos}
use android_device_gionee_p.Format.{codes}
use android_device_gionee_p.Wifi.Strings.{
  starts_with_nocase, starts_with, equals_nocase, behind_blank,
}
use android_device_gionee_p.Wifi.TestMode.Balance.{IsBalanced, exchanges, losses}
use android_device_gionee_p.Wifi.Parse.{command_of, tuning_command_of, optional_command_of}
use android_device_gionee_p.Wifi.Driver.Safety.{IsSound}
use android_device_gionee_p.Wifi.Driver.Tests.{os, idle, wlan0}
use android_device_gionee_p.Wifi.Interface.{Operation, driver_command, set_p2p_noa, session}
use android_device_gionee_p.Wifi.Interface.Session.{
  AreSound, session-IsBalanced, session-AreReturned, session-sockets,
}

-- The first message is exchanged, and the second one finds no room.
abbrev calls : List Operation
calls =
    driver_command wlan0 (codes "COUNTRY CN") 64
    ∷ driver_command wlan0 (codes "p2p_set_power_save 1") 64
    ∷ driver_command wlan0 (codes "GET_STA_STATISTICS 02:00:00:00:00:01") 512
    ∷ set_p2p_noa wlan0 1 (pos 0) (pos 100)
    ∷ driver_command wlan0 (codes "p2p_set_opps 5 02:00:00:00:00:01 x") 64
    ∷ []

calls-AreSound : AreSound os calls
unfolding IsSound command_of tuning_command_of optional_command_of starts_with_nocase starts_with
    equals_nocase behind_blank
calls-AreSound = ((refl, omega arith), ((refl, tt), ((refl, tt), (tt, ((refl, tt), tt)))))

idle-IsBalanced : IsBalanced os.sizes idle.radio
unfolding exchanges losses
idle-IsBalanced = (tt, refl, refl)

session-IsBalanced_example : IsBalanced os.sizes (session os calls idle).1.radio
session-IsBalanced_example = session-IsBalanced os calls idle idle-IsBalanced

session-sockets_example : (session os calls idle).1.open_sockets ≡ idle.open_sockets
session-sockets_example =
    session-sockets os calls idle (session-AreReturned os calls idle calls-AreSound).0
