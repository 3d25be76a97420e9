-- ===== src/Wifi/Interface.antt =====
-- The functions of mediatek_driver_cmd_nl80211.c that wpa_supplicant's table of driver operations
-- takes: the commands, and the P2P operations, which the chip does not need. Each `priv` is a
-- `bss`.
pub mod Session
mod Tests
use android_device_gionee_p.Common.{ℕ, List, [], ◌∷◌}
use android_device_gionee_p.Common.Int.{ℤ, pos, negsuc}
use android_device_gionee_p.Format.{Text}
use android_device_gionee_p.Wifi.Netlink.{Bytes}
use android_device_gionee_p.Wifi.Driver.{
  Platform, Driver, Result, returned, undefined, Action, return, Bss,
}
use android_device_gionee_p.Wifi.Driver.Dispatch.{driver_cmd}

-- A call, with its arguments; `get_p2p_noa` does not touch its buffer.
pub data Operation : Type 0 where
  driver_command : Bss → Text → ℕ → Operation
  set_p2p_noa : Bss → ℕ → ℤ → ℤ → Operation
  get_p2p_noa : Bss → ℕ → Operation
  set_p2p_ps : Bss → ℤ → ℤ → ℤ → Operation
  set_ap_wps_p2p_ie : Bss → Bytes → Bytes → Bytes → Operation

pub wpa_driver_set_p2p_noa : Bss → ℕ → ℤ → ℤ → Action
wpa_driver_set_p2p_noa bss count start duration = return (negsuc 0)

pub wpa_driver_get_p2p_noa : Bss → ℕ → Action
wpa_driver_get_p2p_noa bss len = return (negsuc 0)

pub wpa_driver_set_p2p_ps : Bss → ℤ → ℤ → ℤ → Action
wpa_driver_set_p2p_ps bss legacy_ps opp_ps ctwindow = return (negsuc 0)

pub wpa_driver_set_ap_wps_p2p_ie : Bss → Bytes → Bytes → Bytes → Action
wpa_driver_set_ap_wps_p2p_ie bss beacon proberesp assocresp = return (pos 0)

-- What follows a call: nothing once the code has done what C leaves undefined.
abbrev pub behind_result : Result → List Result × Driver → Driver → List Result × Driver
behind_result (returned ret) (results, d) e = (returned ret ∷ results, d)
behind_result undefined (results, d) e = (undefined ∷ [], e)

module _ (os : Platform) where
  pub operate : Operation → Action
  unfolding driver_cmd wpa_driver_set_p2p_noa wpa_driver_get_p2p_noa wpa_driver_set_p2p_ps
      wpa_driver_set_ap_wps_p2p_ie
  operate (driver_command bss cmd buflen) = driver_cmd os bss cmd buflen
  operate (set_p2p_noa bss count start duration) = wpa_driver_set_p2p_noa bss count start duration
  operate (get_p2p_noa bss len) = wpa_driver_get_p2p_noa bss len
  operate (set_p2p_ps bss legacy_ps opp_ps ctwindow) =
      wpa_driver_set_p2p_ps bss legacy_ps opp_ps ctwindow
  operate (set_ap_wps_p2p_ie bss beacon proberesp assocresp) =
      wpa_driver_set_ap_wps_p2p_ie bss beacon proberesp assocresp

  -- The results of one call after the other, and the driver behind the last one.
  unfoldable pub session : List Operation → Driver → List Result × Driver
  unfolding operate
  session [] d = ([], d)
  session (op ∷ ops) d = let (res, e) = operate op d in behind_result res (session ops e) e
