-- ===== src/Wifi/Driver.antt =====
-- The commands of mediatek_driver_cmd_nl80211.c that `wpa_driver_nl80211_driver_cmd` carries out.
-- What they call outside of the file is in `Platform`: the n-th call of the file meets `answer n`.
pub mod Commands
pub mod Dispatch
pub mod Kept
pub mod Messages
pub mod Filters
pub mod Safety
pub mod Buffer
pub mod Branches
pub mod Replies
pub mod Statistics
pub mod Links
pub mod Country
pub mod Mcc
pub mod Peers
pub mod Tests
use android_device_gionee_p.Common.{
  ℕ, suc, ◌+◌, ◌-◌, ◌%◌, ◌^◌, List, [], ◌∷◌, ◌++◌, Bool, true, false, Option, none, some, ltb, leb,
  ◌==◌, if◌then◌else◌, length,
}
use android_device_gionee_p.Common.Int.{ℤ, pos, negsuc, ltb_ℤ, eqb_ℤ}
use android_device_gionee_p.Common.State.{State}
use android_device_gionee_p.Format.{Text, codes, newline, stored}
use android_device_gionee_p.Wifi.Netlink.{Bytes, Netlink}
use android_device_gionee_p.Wifi.Strings.{behind_blank, strtol, atoi, to_u32}
use android_device_gionee_p.Wifi.Statistics.{StaStatistics}
use android_device_gionee_p.Wifi.LinkDetect.{LinkDetect, print_link_detect}
use android_device_gionee_p.Wifi.Print.{print_sta_statistics}
use android_device_gionee_p.Wifi.TestMode.Wapi.{WapiKey}
use android_device_gionee_p.Wifi.TestMode.{
  Config, Sizes, Radio, driver_sw_cmd, sta_block, sta_unblock, wpas_get_sta_statistics,
  wpas_get_sta_link_detect, wpas_p2p_sigma_test_mode,
}

pub record Platform : Type 0 where
  pub nl : Netlink
  pub config : Config
  pub sizes : Sizes
  -- What the caller's buffer holds, read as the structures of the two WAPI commands.
  pub wapi_key : WapiKey
  pub wapi_msg_len : ℤ
  -- `hwaddr_aton`, and what `MACSTR` prints.
  pub hwaddr_aton : Text → Option Bytes
  pub mac_text : Bytes → Text
  -- `socket`, `ioctl`, `linux_set_iface_flags` and `wpa_drv_deauthenticate`.
  pub answer : ℕ → ℤ
  -- What the stack holds where the n-th call's local variables are.
  pub stack_statistics : ℕ → StaStatistics
  pub stack_link_detect : ℕ → LinkDetect

-- What the driver does outside of its own state.
pub data Effect : Type 0 where
  iface_up iface_down deauthenticated : Effect
  -- The two messages "CTRL-EVENT-DRIVER-STATE …".
  announced_started announced_stopped : Effect
  -- `ioctl(ioctl_sock, 0x8B0C, …)` with the text in `buf`.
  private_ioctl : Text → Effect

-- An interface in `wpa_s->global->ifaces`: `num_multichan_concurrent`, and whether `drv_flags` has
-- `WPA_DRIVER_FLAGS_P2P_CONCURRENT`.
pub record Iface : Type 0 where
  pub num_multichan_concurrent : ℕ
  pub p2p_concurrent : Bool

pub record Driver : Type 0 where
  pub radio : Radio
  pub calls : ℕ
  pub effects : List Effect
  pub open_sockets : ℕ
  pub ifaces : List Iface
  -- `concurrent_operations`, if there is `global->p2p` with its `cfg`.
  pub concurrent_operations : Option ℕ
  -- What the caller's buffer holds in front of the NUL.
  pub buf : Text
  -- How often a command read a byte past the end of `reserved`.
  pub overreads : ℕ

-- A command returns an `int`, or the code reads an uninitialised pointer, goes through a null
-- pointer, or writes outside of an array. Reads past an array whose value is not used are counted
-- in `overreads`.
pub data Result : Type 0 where
  returned : ℤ → Result
  undefined : Result

abbrev pub Action : Type 0
Action = Driver → Result × Driver

abbrev pub return : ℤ → Action
return ret d = (returned ret, d)

-- The state `bss`: "ap0" has no `wpa_s`.
pub record Bss : Type 0 where
  pub is_ap0 : Bool
  pub has_drv : Bool
  pub has_ctx : Bool
  pub has_conf : Bool
  pub has_drv_priv : Bool
  pub associated : Bool
  pub own_addr : Bytes

-- An action that reads `wpa_s`, which "ap0" leaves uninitialised.
abbrev pub with_wpa_s : Bss → Action → Action
with_wpa_s bss act d = if bss.is_ap0 then (undefined, d) else act d

abbrev pub on_radio : State Radio ℤ → State Driver ℤ
on_radio m d = let (ret, r) = m d.radio in (ret, record d { radio = r })

abbrev pub on_radio_dropped : State Radio ℤ → Action
on_radio_dropped m d = (returned (pos 0), record d { radio = (m d.radio).1 })

-- One call of the platform: its answer is counted.
abbrev pub called : Driver → Driver
called d = record d { calls = suc d.calls }

abbrev pub effect : Effect → Driver → Driver
effect e d = record d { effects = e ∷ d.effects }

-- A buffer without room for the NUL is left as it is.
abbrev pub fill_buf : ℕ → Text → Driver → Driver
fill_buf buflen text d = record d { buf = if buflen == 0 then d.buf else text }

abbrev pub open_socket : Driver → Driver
open_socket d = record d { open_sockets = suc d.open_sockets }

abbrev pub close_socket : Driver → Driver
close_socket d = record d { open_sockets = d.open_sockets - 1 }

module _ (os : Platform) where
  -- `sprintf(buf, "COUNTRY %s", alpha2_arg)` into 11 bytes, and the call behind it.
  pub send_country : Text → Action
  send_country alpha2 d =
      let line = codes "COUNTRY " ++ alpha2 in
      let ret = os.answer d.calls in
      let sent = close_socket (effect (private_ioctl line) (called d)) in
      if leb 11 (length line)
      then (undefined, d)
      else if ltb_ℤ ret (pos 0)
      then (returned ret, sent)
      else (returned (pos 0), sent)

  pub set_country : Text → Action
  unfolding send_country
  set_country alpha2 d =
      if ltb_ℤ (os.answer d.calls) (pos 0)
      then (returned (negsuc 0), called d)
      else send_country alpha2 (open_socket (called d))

  pub set_country_at : Option Text → Action
  unfolding set_country
  set_country_at none d = (undefined, d)
  set_country_at (some alpha2) d = set_country alpha2 d

  -- `linux_set_iface_flags`, and the message when it succeeds.
  pub set_iface_flags : Effect → Effect → Action
  set_iface_flags up message d =
      let ret = os.answer d.calls in
      let called_d = effect up (called d) in
      (returned ret, if eqb_ℤ ret (pos 0) then effect message called_d else called_d)

  pub start_iface : Action
  unfolding set_iface_flags
  start_iface d = set_iface_flags iface_up announced_started d

  -- The result of `wpa_drv_deauthenticate` is overwritten.
  pub stop_iface : Bss → Action
  unfolding set_iface_flags
  stop_iface bss d =
      if bss.associated
      then with_wpa_s bss
          (λ d. set_iface_flags iface_down announced_stopped (effect deauthenticated (called d))) d
      else set_iface_flags iface_down announced_stopped d

  -- `snprintf(buf, buf_len, "Macaddr = " MACSTR "\n", …)`
  pub mac_addr_text : Bss → ℕ → Action
  mac_addr_text bss buflen d =
      let text = codes "Macaddr = " ++ os.mac_text bss.own_addr ++ newline in
      (returned (pos (length text)), fill_buf buflen (stored buflen text) d)
