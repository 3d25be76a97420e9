-- ===== src/Wifi/Interface/Session.antt =====
-- Sequences of calls of the driver operations of mediatek_driver_cmd_nl80211.c.
use android_device_gionee_p.Common.{
  arith, ◌+◌, ◌≤◌, ℕ, suc, ◌≡◌, refl, ◌∙◌, ap, List, [], ◌∷◌, length, false,
}
use android_device_gionee_p.Common.Int.{ℤ}
use android_device_gionee_p.Wifi.TestMode.Balance.{IsBalanced}
use android_device_gionee_p.Wifi.Parse.{command_of}
use android_device_gionee_p.Wifi.Driver.{Platform, Driver, Result, returned, undefined}
use android_device_gionee_p.Wifi.Driver.Dispatch.{driver_cmd}
use android_device_gionee_p.Wifi.Driver.Messages.{
  reports, driver_cmd-IsBalanced, driver_cmd-sockets, driver_cmd-overreads,
}
use android_device_gionee_p.Wifi.Driver.Safety.{IsReturned, IsSound, driver_cmd-IsReturned}
use android_device_gionee_p.Wifi.Interface.{
  Operation, driver_command, set_p2p_noa, get_p2p_noa, set_p2p_ps, set_ap_wps_p2p_ie, behind_result,
  operate, session,
}

abbrev pub AreReturned : List Result → Type 0
AreReturned [] = Unit {0}
AreReturned (r ∷ rs) = IsReturned r × AreReturned rs

abbrev pub IsSoundOperation : Platform → Operation → Type 0
IsSoundOperation os (driver_command bss cmd buflen) =
    (bss.is_ap0 ≡ false) × IsSound os (command_of os.config cmd)
IsSoundOperation os _ = Unit {0}

abbrev pub AreSound : Platform → List Operation → Type 0
AreSound os [] = Unit {0}
AreSound os (op ∷ ops) = IsSoundOperation os op × AreSound os ops

-- How many commands of a sequence ask for the report on a station.
abbrev pub reports_of : Platform → Operation → ℕ
reports_of os (driver_command bss cmd buflen) = reports (command_of os.config cmd)
reports_of os _ = 0

abbrev pub all_reports : Platform → List Operation → ℕ
all_reports os [] = 0
all_reports os (op ∷ ops) = reports_of os op + all_reports os ops

returned_as : (res : Result) → IsReturned res → (ret : ℤ) × (res ≡ returned ret)
returned_as (returned ret) h = (ret, refl)
returned_as undefined h = absurd h

module _ (os : Platform) where
  operate-IsBalanced :
      (op : Operation) (d : Driver)
      → IsBalanced os.sizes d.radio
      → IsBalanced os.sizes (operate os op d).1.radio
  unfolding operate
  operate-IsBalanced (driver_command bss cmd buflen) d b =
      driver_cmd-IsBalanced os bss cmd buflen d b
  operate-IsBalanced (set_p2p_noa bss count start duration) d b = b
  operate-IsBalanced (get_p2p_noa bss len) d b = b
  operate-IsBalanced (set_p2p_ps bss legacy_ps opp_ps ctwindow) d b = b
  operate-IsBalanced (set_ap_wps_p2p_ie bss beacon proberesp assocresp) d b = b

  behind-IsBalanced :
      (res : Result) (rest : List Result × Driver) (e : Driver)
      → IsBalanced os.sizes e.radio
      → IsBalanced os.sizes rest.1.radio
      → IsBalanced os.sizes (behind_result res rest e).1.radio
  behind-IsBalanced (returned ret) rest e b c = c
  behind-IsBalanced undefined rest e b c = b

  -- From a state of the radio that is balanced, any sequence of calls, also one that ends in
  -- undefined behaviour, leaves a balanced one. Balanced is: each message handed to the chip has
  -- its structure's index with version 1 in the top byte, its structure's size, and words,
  -- key bytes and lengths that fit their fields; there are as many messages as there were exchanges; and as many were lost,
  -- never freed, as met no room for an attribute.
  pub session-IsBalanced :
      (ops : List Operation) (d : Driver)
      → IsBalanced os.sizes d.radio
      → IsBalanced os.sizes (session os ops d).1.radio
  unfolding session
  session-IsBalanced [] d b = b
  session-IsBalanced (op ∷ ops) d b =
      let c = operate-IsBalanced op d b in
      behind-IsBalanced (operate os op d).0 (session os ops (operate os op d).1) (operate os op d).1
        c (session-IsBalanced ops (operate os op d).1 c)

  operate-sockets :
      (op : Operation) (d : Driver)
      → IsReturned (operate os op d).0
      → (operate os op d).1.open_sockets ≡ d.open_sockets
  unfolding operate
  operate-sockets (driver_command bss cmd buflen) d h =
      let (ret, e) = returned_as (driver_cmd os bss cmd buflen d).0 h in
      driver_cmd-sockets os bss cmd buflen d ret e
  operate-sockets (set_p2p_noa bss count start duration) d h = refl
  operate-sockets (get_p2p_noa bss len) d h = refl
  operate-sockets (set_p2p_ps bss legacy_ps opp_ps ctwindow) d h = refl
  operate-sockets (set_ap_wps_p2p_ie bss beacon proberesp assocresp) d h = refl

  operate-IsReturned :
      (op : Operation) (d : Driver) → IsSoundOperation os op → IsReturned (operate os op d).0
  unfolding operate
  operate-IsReturned (driver_command bss cmd buflen) d (station, sound) =
      driver_cmd-IsReturned os bss cmd buflen d station sound
  operate-IsReturned (set_p2p_noa bss count start duration) d h = tt
  operate-IsReturned (get_p2p_noa bss len) d h = tt
  operate-IsReturned (set_p2p_ps bss legacy_ps opp_ps ctwindow) d h = tt
  operate-IsReturned (set_ap_wps_p2p_ie bss beacon proberesp assocresp) d h = tt

  operate-overreads :
      (op : Operation) (d : Driver) → (operate os op d).1.overreads ≤ reports_of os op + d.overreads
  unfolding operate
  operate-overreads (driver_command bss cmd buflen) d = driver_cmd-overreads os bss cmd buflen d
  operate-overreads (set_p2p_noa bss count start duration) d = omega arith
  operate-overreads (get_p2p_noa bss len) d = omega arith
  operate-overreads (set_p2p_ps bss legacy_ps opp_ps ctwindow) d = omega arith
  operate-overreads (set_ap_wps_p2p_ie bss beacon proberesp assocresp) d = omega arith

  -- All the calls returned, and array overruns were read for reports only.
  abbrev pub Completes : List Operation → Driver → List Result × Driver → Type 0
  Completes ops d (results, last) =
      AreReturned results
      × (length results ≡ length ops)
      × (last.overreads ≤ all_reports os ops + d.overreads)

  behind-Completes :
      (op : Operation) (ops : List Operation) (res : Result) (rest : List Result × Driver)
      (d e : Driver)
      → IsReturned res
      → e.overreads ≤ reports_of os op + d.overreads
      → Completes ops e rest
      → Completes (op ∷ ops) d (behind_result res rest e)
  behind-Completes op ops (returned ret) rest d e h few (all, same, few') =
      ((tt, all), ap suc same, omega (arith, few, few'))
  behind-Completes op ops undefined rest d e h few k = absurd h

  pub session-AreReturned :
      (ops : List Operation) (d : Driver) → AreSound os ops → Completes ops d (session os ops d)
  unfolding session
  session-AreReturned [] d h = (tt, refl, omega arith)
  session-AreReturned (op ∷ ops) d (sound, all) =
      let e = (operate os op d).1 in
      behind-Completes op ops (operate os op d).0 (session os ops e) d e
        (operate-IsReturned op d sound) (operate-overreads op d) (session-AreReturned ops e all)

  behind-sockets :
      (res : Result) (rest : List Result × Driver) (d e : Driver)
      → (IsReturned res → e.open_sockets ≡ d.open_sockets)
      → (AreReturned rest.0 → rest.1.open_sockets ≡ e.open_sockets)
      → AreReturned (behind_result res rest e).0
      → (behind_result res rest e).1.open_sockets ≡ d.open_sockets
  behind-sockets (returned ret) rest d e h k (one, all) = k all ∙ h tt
  behind-sockets undefined rest d e h k (none_such, all) = absurd none_such

  -- A sequence of calls that all return, with whatever results, leaves as many sockets open as
  -- there were.
  pub session-sockets :
      (ops : List Operation) (d : Driver)
      → AreReturned (session os ops d).0
      → (session os ops d).1.open_sockets ≡ d.open_sockets
  unfolding session
  session-sockets [] d h = refl
  session-sockets (op ∷ ops) d h =
      behind-sockets (operate os op d).0 (session os ops (operate os op d).1) d (operate os op d).1
        (operate-sockets op d) (session-sockets ops (operate os op d).1) h
