-- ===== src/Wifi/Driver/Peers.antt =====
-- The commands of `wpa_driver_nl80211_driver_cmd` in mediatek_driver_cmd_nl80211.c that are about
-- other stations: STA-BLOCK, STA-UNBLOCK and the p2p_set_* commands.
use android_device_gionee_p.Common.{
  ℕ, suc, ◌<◌, ◌≡◌, ◌%◌, ◌^◌, refl, ap, ◌∙◌, List, [], ◌∷◌, ◌++◌, true, false, some, arith,
  if◌then◌else◌,
}
use android_device_gionee_p.Common.Int.{ℤ, pos, negsuc, eqb_ℤ}
use android_device_gionee_p.Format.{Text, codes, decimal}
use android_device_gionee_p.Wifi.Netlink.{Bytes}
use android_device_gionee_p.Wifi.Strings.{
  behind_blank, starts_with_nocase, equals_nocase, starts_with,
}
use android_device_gionee_p.Wifi.Strings.Numbers.{
  strtol-decimal, atoi-decimal_behind, behind_blank-decimal,
}
use android_device_gionee_p.Wifi.TestMode.{
  Config, Sizes, Params, Radio, Exchange, hotspot, p2p_sigma_params, exchanged, no_message, no_room,
  testmode, on_answer, sta_block, sta_unblock, hotspot_block_list_update, wpas_p2p_sigma_test_mode,
}
use android_device_gionee_p.Wifi.TestMode.Sent.{handle_all-sent}
use android_device_gionee_p.Wifi.Parse.{command_of, tuning_command_of, optional_command_of}
use android_device_gionee_p.Wifi.Driver.{Platform, Driver, Result, returned, Bss, Action}
use android_device_gionee_p.Wifi.Driver.Commands.{zero_or_fails}
use android_device_gionee_p.Wifi.Driver.Dispatch.{
  all_addrs, carry_out, driver_cmd, set_opps_behind, sigma_behind_ssid, p2p_ctrl_iface_set_opps,
  p2p_ctrl_iface_set_power_save, p2p_ctrl_iface_set_sleep,
}
use android_device_gionee_p.Wifi.Driver.Filters.{IsUp, driver_cmd-up}

-- What is asked for. A text begins with an address, and, but for blocking, has a blank behind it.
pub data Wish : Type 0 where
  block unblock : Text → Wish
  set_opps : ℕ → Text → Wish
  set_power_save : ℕ → Wish
  set_sleep : Text → Wish
  set_sleep_all : Wish

abbrev pub text_of : Wish → Text
text_of (block t) = codes "STA-BLOCK " ++ t
text_of (unblock t) = codes "STA-UNBLOCK " ++ t
text_of (set_opps n t) = codes "p2p_set_opps " ++ (decimal n ++ b' ' ∷ t)
text_of (set_power_save n) = codes "p2p_set_power_save " ++ decimal n
text_of (set_sleep t) = codes "p2p_set_sleep " ++ t
text_of set_sleep_all = codes "p2p_set_sleep"

-- The build has the command.
abbrev pub IsBuilt : Config → Wish → Type 0
IsBuilt config (block t) = config.hotspot_mgr ≡ true
IsBuilt config (unblock t) = config.hotspot_mgr ≡ true
IsBuilt config _ = config.p2p_sigma ≡ true

-- The numbers are read, and the address is read as `addr`.
abbrev pub IsReadable : Platform → Bytes → Wish → Type 0
IsReadable os addr (block t) = os.hwaddr_aton t ≡ some addr
IsReadable os addr (unblock t) = os.hwaddr_aton t ≡ some addr
IsReadable os addr (set_opps n t) =
    (n < 2 ^ 31) × (os.hwaddr_aton t ≡ some addr) × (ssid : Text) × (behind_blank t ≡ some ssid)
IsReadable os addr (set_power_save n) = n < 2 ^ 31
IsReadable os addr (set_sleep t) =
    (os.hwaddr_aton t ≡ some addr) × (ssid : Text) × (behind_blank t ≡ some ssid)
IsReadable os addr set_sleep_all = os.hwaddr_aton all_addrs ≡ some addr

-- The message, with the index and the version 1 in its header.
abbrev pub blocking : Sizes → ℕ → Bytes → Params
blocking sizes blocked addr =
    hotspot (record { index = 0x01000003; buflen = sizes.hotspot_size }) blocked addr

abbrev pub setting : Sizes → ℕ → ℕ → Params
setting sizes index value =
    p2p_sigma_params (record { index = 0x01000001; buflen = sizes.sigma_size }) index value

abbrev pub message_of : Sizes → Bytes → Wish → Params
message_of sizes addr (block t) = blocking sizes 1 addr
message_of sizes addr (unblock t) = blocking sizes 0 addr
message_of sizes addr (set_opps n t) = setting sizes 107 n
message_of sizes addr (set_power_save n) = setting sizes 108 n
message_of sizes addr (set_sleep t) = setting sizes 106 0
message_of sizes addr set_sleep_all = setting sizes 106 0

abbrev pub result_of : Exchange → ℤ
result_of no_message = negsuc 0
result_of no_room = negsuc 104
result_of (exchanged result msgs) = result

-- Blocking fails with -1 when the exchange does; the others return 0 whatever it does.
abbrev pub answer_of : Exchange → Wish → ℤ
answer_of e (block t) = if eqb_ℤ (result_of e) (pos 0) then pos 0 else negsuc 0
answer_of e (unblock t) = if eqb_ℤ (result_of e) (pos 0) then pos 0 else negsuc 0
answer_of e _ = pos 0

abbrev pub sent_by : Exchange → Params → List Params
sent_by (exchanged result msgs) p = p ∷ []
sent_by _ p = []

same_word : (n : ℕ) → n < 2 ^ 31 → n % 2 ^ 32 ≡ n
same_word n h = omega arith

module _ (os : Platform) where
  on_answer-peers :
      (e : Exchange) (p : Params) (r : Radio)
      → ((on_answer os.nl os.config e p r).0 ≡ result_of e)
        × ((on_answer os.nl os.config e p r).1.sent ≡ sent_by e p ++ r.sent)
  unfolding on_answer
  on_answer-peers no_message p r = (refl, refl)
  on_answer-peers no_room p r = (refl, refl)
  on_answer-peers (exchanged result msgs) p r = (refl, handle_all-sent os.nl _ msgs _)

  -- What the command does, where the code has come to the message.
  abbrev acted : Bytes → Wish → Driver → Driver
  acted addr r d = record d {
    radio =
        (on_answer os.nl os.config (d.radio.answer d.radio.attempts) (message_of os.sizes addr r)
          (record d.radio { attempts = suc d.radio.attempts })).1;
  }

  -- The branch that the text leads to.
  abbrev branch : Wish → Action
  branch (block t) = zero_or_fails os (sta_block os.nl os.config os.sizes (os.hwaddr_aton t))
  branch (unblock t) = zero_or_fails os (sta_unblock os.nl os.config os.sizes (os.hwaddr_aton t))
  branch (set_opps n t) = p2p_ctrl_iface_set_opps os (decimal n ++ b' ' ∷ t)
  branch (set_power_save n) = p2p_ctrl_iface_set_power_save os (decimal n)
  branch (set_sleep t) = p2p_ctrl_iface_set_sleep os t
  branch set_sleep_all = p2p_ctrl_iface_set_sleep os all_addrs

  carry_out-branch :
      (bss : Bss) (buflen : ℕ) (d : Driver) (r : Wish)
      → IsBuilt os.config r
      → bss.is_ap0 ≡ false
      → carry_out os bss buflen (command_of os.config (text_of r)) d ≡ branch r d
  unfolding carry_out command_of tuning_command_of optional_command_of starts_with_nocase
      starts_with equals_nocase
  carry_out-branch bss buflen d (block t) built station = rw built refl
  carry_out-branch bss buflen d (unblock t) built station = rw built refl
  carry_out-branch bss buflen d (set_opps n t) built station = rw (built, station) refl
  carry_out-branch bss buflen d (set_power_save n) built station = rw (built, station) refl
  carry_out-branch bss buflen d (set_sleep t) built station = rw (built, station) refl
  carry_out-branch bss buflen d set_sleep_all built station = rw (built, station) refl

  blocked :
      (addr : Bytes) (r : Wish) (d : Driver)
      → ◌≡◌ {A = Result × Driver}
          (
            returned (
                if eqb_ℤ
                  (on_answer os.nl os.config
                    (d.radio.answer d.radio.attempts)
                    (message_of os.sizes addr r)
                    (record d.radio { attempts = suc d.radio.attempts })).0
                  (pos 0)
                then pos 0
                else negsuc 0),
            acted addr r d,
          )
          (
            returned (
                if eqb_ℤ (result_of (d.radio.answer d.radio.attempts)) (pos 0)
                then pos 0
                else negsuc 0),
            acted addr r d,
          )
  blocked addr r d =
      ap (λ (z : ℤ). (returned (if eqb_ℤ z (pos 0) then pos 0 else negsuc 0), acted addr r d))
        (on_answer-peers (d.radio.answer d.radio.attempts) (message_of os.sizes addr r)
          (record d.radio { attempts = suc d.radio.attempts })).0

  branch-acts :
      (d : Driver) (r : Wish) (addr : Bytes)
      → IsReadable os addr r
      → branch r d ≡ (returned (answer_of (d.radio.answer d.radio.attempts) r), acted addr r d)
  unfolding sta_block sta_unblock hotspot_block_list_update testmode wpas_p2p_sigma_test_mode
      p2p_ctrl_iface_set_opps p2p_ctrl_iface_set_power_save p2p_ctrl_iface_set_sleep set_opps_behind
      sigma_behind_ssid behind_blank
  branch-acts d (block t) addr reads = rw reads (blocked addr (block t) d)
  branch-acts d (unblock t) addr reads = rw reads (blocked addr (unblock t) d)
  branch-acts d (set_opps n t) addr (small, reads, ssid, blank) =
      rw (atoi-decimal_behind t n small)
        (rw (behind_blank-decimal t n) (rw (reads) (rw (blank) rw (same_word n small) refl)))
  branch-acts d (set_power_save n) addr small =
      rw ((strtol-decimal n small).1) (rw (same_word n small) refl)
  branch-acts d (set_sleep t) addr (reads, ssid, blank) = rw (reads) (rw (blank) refl)
  branch-acts d set_sleep_all addr reads = rw reads refl

  -- On an interface that is up and is not "ap0", in a build with the command, "STA-BLOCK A",
  -- "STA-UNBLOCK A", "p2p_set_opps N A S", "p2p_set_power_save N", "p2p_set_sleep A S" and
  -- "p2p_set_sleep", with N written in decimal and below 2^31, with an address A that is read,
  -- and a blank behind it in front of S: when the exchange takes place, with whatever result, one
  -- message is sent, with the address or with the number and the index of the command, and
  -- otherwise none. STA-BLOCK and STA-UNBLOCK return 0 when the exchange gives 0, and -1
  -- otherwise; the others return 0 always.
  pub wish_sent :
      (bss : Bss) (buflen : ℕ) (d : Driver) (r : Wish) (addr : Bytes)
      → IsUp bss
      → IsBuilt os.config r
      → bss.is_ap0 ≡ false
      → IsReadable os addr r
      → let e = d.radio.answer d.radio.attempts in
        let (res, d') = driver_cmd os bss (text_of r) buflen d in
        (res ≡ returned (answer_of e r))
        × (d'.radio.sent ≡ sent_by e (message_of os.sizes addr r) ++ d.radio.sent)
  wish_sent bss buflen d r addr up built station reads =
      rw
        (driver_cmd-up os bss (text_of r) buflen d up
          ∙ carry_out-branch bss buflen d r built station
          ∙ branch-acts d r addr reads)
        (
          refl,
          (on_answer-peers (d.radio.answer d.radio.attempts) (message_of os.sizes addr r)
              (record d.radio { attempts = suc d.radio.attempts })).1,
        )
