-- ===== src/Wifi/Driver/Kept.antt =====
-- What the branches of `wpa_driver_nl80211_driver_cmd` do to the messages and the sockets, in
-- mediatek_driver_cmd_nl80211.c.
use android_device_gionee_p.Common.{
  ℕ, Bool, ◌+◌, ◌≤◌, ◌<◌, ◌≡◌, ◌^◌, refl, Option, none, some, inl, inr, Bool-cases, true, false,
  if◌then◌else◌, arith, ◌∙◌,
}
use android_device_gionee_p.Common.Int.{ℤ, pos, ltb_ℤ, eqb_ℤ}
use android_device_gionee_p.Format.{Text}
use android_device_gionee_p.Wifi.Netlink.{Bytes}
use android_device_gionee_p.Wifi.Strings.{behind_blank}
use android_device_gionee_p.Wifi.Statistics.{StaStatistics}
use android_device_gionee_p.Wifi.Printer.{Printed, complete, cut}
use android_device_gionee_p.Wifi.Print.{reached_end, reads_past_reserved}
use android_device_gionee_p.Wifi.TestMode.Balance.{
  IsBalancedIn, IsBalanced, driver_sw_cmd-IsBalanced, wpas_get_sta_statistics-IsBalanced,
  wpas_get_sta_link_detect-IsBalanced, wpas_p2p_sigma_test_mode-IsBalanced,
}
use android_device_gionee_p.Wifi.TestMode.{Radio, wpas_get_sta_statistics, wpas_get_sta_link_detect}
use android_device_gionee_p.Wifi.Driver.{
  Platform, Driver, on_radio, Result, returned, undefined, Bss, stop_iface, set_iface_flags,
  set_country_at, set_country, send_country, Effect,
}
use android_device_gionee_p.Wifi.Driver.Commands.{
  mcc_at, set_mcc, software_command, number_command, get_statistics, wpa_driver_get_sta_link_detect,
  print_statistics, print_links, fresh_statistics, fresh_link_detect,
}
use android_device_gionee_p.Wifi.Driver.Dispatch.{
  wapi_result, sigma, sigma_behind_ssid, sigma_behind_addr, set_opps_behind,
}

-- What a command keeps: the messages are balanced still, when it returns no socket is left open,
-- and it reads at most `k` times past an array.
pub record Kept (os : Platform) (k : ℕ) (d : Driver) (res : Result × Driver) : Type 0 where
  pub messages : IsBalanced os.sizes d.radio → IsBalanced os.sizes res.1.radio
  pub sockets : (ret : ℤ) → res.0 ≡ returned ret → res.1.open_sockets ≡ d.open_sockets
  pub overreads : res.1.overreads ≤ k + d.overreads

reached_end-le : (p : Printed) → reached_end p ≤ 1
reached_end-le (complete out) = omega arith
reached_end-le (cut out t) = omega arith

reads_past_reserved-le :
    (mac_text : Bytes → Text) (s : StaStatistics) (buflen : ℕ)
    → reads_past_reserved mac_text s buflen ≤ 1
unfolding reads_past_reserved
reads_past_reserved-le mac_text s buflen = reached_end-le _

module _ (os : Platform) where
  -- Nothing of the radio and the sockets changes.
  pub same :
      {k : ℕ} (res : Result × Driver) (d : Driver)
      → res.1.radio ≡ d.radio
      → res.1.open_sockets ≡ d.open_sockets
      → res.1.overreads ≡ d.overreads
      → Kept os k d res
  same res d radio sockets past = record {
    messages = λ all. rw radio all;
    sockets = λ ret e. sockets;
    overreads = omega (arith, past);
  }

  -- A step before the rest of a command.
  after :
      {k : ℕ} (d e : Driver) (res : Result × Driver)
      → (IsBalanced os.sizes d.radio → IsBalanced os.sizes e.radio)
      → e.open_sockets ≡ d.open_sockets
      → e.overreads ≡ d.overreads
      → Kept os k e res
      → Kept os k d res
  after d e res step sockets past kept = record {
    messages = λ all. kept.messages (step all);
    sockets = λ ret h. kept.sockets ret h ∙ sockets;
    overreads = omega (arith, past, kept.overreads);
  }

  pub sigma-Kept : (index value : ℤ) (d : Driver) → Kept os 0 d (sigma os index value d)
  sigma-Kept index value d = record {
    messages = wpas_p2p_sigma_test_mode-IsBalanced os.nl os.config os.sizes index value d.radio;
    sockets = λ ret e. refl;
    overreads = omega arith;
  }

  pub software_command-Kept :
      (adr dat : ℕ) (d : Driver)
      → adr < 2 ^ 32
      → dat < 2 ^ 32
      → Kept os 0 d (software_command os adr dat d)
  unfolding software_command
  software_command-Kept adr dat d h k = record {
    messages = driver_sw_cmd-IsBalanced os.nl os.config os.sizes 1 adr dat d.radio h k;
    sockets = λ ret e. refl;
    overreads = omega arith;
  }

  pub number_command-Kept :
      (adr offset : ℕ) (n : Option ℤ) (d : Driver)
      → adr < 2 ^ 32
      → Kept os 0 d (number_command os adr offset n d)
  unfolding number_command
  number_command-Kept adr offset none d h = same _ d refl refl refl
  number_command-Kept adr offset (some n) d h = software_command-Kept adr _ d h (omega arith)

  print_statistics-Kept :
      (ret : ℤ) (buflen : ℕ) (d : Driver) → Kept os 1 d (print_statistics os ret buflen d)
  unfolding print_statistics
  print_statistics-Kept ret buflen d = elim (Bool-cases (ltb_ℤ ret (pos 0))) [
    | inl bad ↦ rw (bad, print_statistics) (same _ d refl refl refl)
    | inr good ↦
        rw (good, print_statistics)
          (record {
            messages = λ all. all;
            sockets = λ n e. refl;
            overreads =
                omega (arith, reads_past_reserved-le os.mac_text d.radio.sta_statistics buflen);
          })
  ]

  print_links-Kept : (ret : ℤ) (buflen : ℕ) (d : Driver) → Kept os 0 d (print_links os ret buflen d)
  unfolding print_links
  print_links-Kept ret buflen d = elim (Bool-cases (ltb_ℤ ret (pos 0))) [
    | inl bad ↦ rw (bad, print_links) (same _ d refl refl refl)
    | inr good ↦ rw (good, print_links) (same _ d refl refl refl)
  ]

  pub get_statistics-Kept :
      (addr : Option Bytes) (buflen : ℕ) (d : Driver)
      → Kept os 1 d (get_statistics os addr buflen d)
  unfolding get_statistics
  get_statistics-Kept none buflen d = same _ d refl refl refl
  get_statistics-Kept (some addr) buflen d =
      let (ret, e) =
        on_radio (wpas_get_sta_statistics os.nl os.config os.sizes (some addr))
          (fresh_statistics os d) in
      after d e _
        (wpas_get_sta_statistics-IsBalanced os.nl os.config os.sizes (some addr)
          (fresh_statistics os d).radio)
        refl refl (print_statistics-Kept ret buflen e)

  pub link_detect-Kept :
      (buflen : ℕ) (d : Driver) → Kept os 0 d (wpa_driver_get_sta_link_detect os buflen d)
  unfolding wpa_driver_get_sta_link_detect
  link_detect-Kept buflen d =
      let (ret, e) =
        on_radio (wpas_get_sta_link_detect os.nl os.config os.sizes) (fresh_link_detect os d) in
      after d e _
        (wpas_get_sta_link_detect-IsBalanced os.nl os.config os.sizes
          (fresh_link_detect os d).radio)
        refl refl (print_links-Kept ret buflen e)

  pub set_iface_flags-Kept :
      (up message : Effect) (d : Driver) → Kept os 0 d (set_iface_flags os up message d)
  unfolding set_iface_flags
  set_iface_flags-Kept up message d = elim (Bool-cases (eqb_ℤ (os.answer d.calls) (pos 0))) [
    | inl good ↦ rw (good, set_iface_flags) (same _ d refl refl refl)
    | inr bad ↦ rw (bad, set_iface_flags) (same _ d refl refl refl)
  ]

  pub country-Kept : (alpha2 : Option Text) (d : Driver) → Kept os 0 d (set_country_at os alpha2 d)
  unfolding set_country_at set_country send_country
  country-Kept none d = same _ d refl refl refl
  country-Kept (some alpha2) d = record {
    messages = λ all. ground (arith, all);
    sockets = λ ret e. ground (arith, e);
    overreads = ground arith;
  }

  pub stop_iface-Kept : (bss : Bss) (d : Driver) → Kept os 0 d (stop_iface os bss d)
  unfolding stop_iface set_iface_flags
  stop_iface-Kept bss d = record {
    messages = λ all. ground (arith, all);
    sockets = λ ret e. ground arith;
    overreads = ground arith;
  }

  behind_ssid-Kept :
      (index value : ℤ) (ssid : Option Text) (d : Driver)
      → Kept os 0 d (sigma_behind_ssid os index value ssid d)
  unfolding sigma_behind_ssid
  behind_ssid-Kept index value none d = same _ d refl refl refl
  behind_ssid-Kept index value (some ssid) d = sigma-Kept index value d

  pub behind_addr-Kept :
      (index value : ℤ) (str : Text) (addr : Option Bytes) (d : Driver)
      → Kept os 0 d (sigma_behind_addr os index value str addr d)
  behind_addr-Kept index value str none d = same _ d refl refl refl
  behind_addr-Kept index value str (some addr) d = behind_ssid-Kept index value (behind_blank str) d

  pub set_opps-Kept :
      (window : ℤ) (str : Option Text) (d : Driver) → Kept os 0 d (set_opps_behind os window str d)
  unfolding set_opps_behind
  set_opps-Kept window none d = same _ d refl refl refl
  set_opps-Kept window (some str) d = behind_addr-Kept (pos 107) window str (os.hwaddr_aton str) d

  pub mcc_at-Kept : (value : Option Text) (d : Driver) → Kept os 0 d (mcc_at value d)
  unfolding mcc_at set_mcc
  mcc_at-Kept none d = same _ d refl refl refl
  mcc_at-Kept (some value) d = same _ d refl refl refl

  pub when-Kept :
      {k : ℕ} (test : Bool) (hit miss : Result × Driver) (d : Driver)
      → Kept os k d hit
      → Kept os k d miss
      → Kept os k d (if test then hit else miss)
  when-Kept true hit miss d h k = h
  when-Kept false hit miss d h k = k

  -- A command that reads `wpa_s`.
  pub reads-Kept :
      {k : ℕ} (bss : Bss) (res : Result × Driver) (d : Driver)
      → Kept os k d res
      → Kept os k d (if bss.is_ap0 then (undefined, d) else res)
  reads-Kept bss res d h = when-Kept bss.is_ap0 _ res d (same _ d refl refl refl) h

  pub wapi-Kept :
      (o : Option (ℤ × Radio)) (d : Driver)
      → (IsBalanced os.sizes d.radio → IsBalancedIn os.nl os.config os.sizes o)
      → Kept os 0 d (wapi_result os o d)
  unfolding wapi_result
  wapi-Kept none d h = same _ d refl refl refl
  wapi-Kept (some (ret, r)) d h = record {
    messages = h;
    sockets = λ n e. refl;
    overreads = omega arith;
  }
