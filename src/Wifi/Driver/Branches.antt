-- ===== src/Wifi/Driver/Branches.antt =====
-- What the branches of `wpa_driver_nl80211_driver_cmd` leave in the caller's buffer, in
-- mediatek_driver_cmd_nl80211.c.
use android_device_gionee_p.Common.{
  subst, ◌+◌, ℕ, zero, suc, ◌<◌, ◌≤◌, ◌≡◌, refl, ap, ◌++◌, Bool, true, false, Option, some, none,
  arith, leb, if◌then◌else◌, length, take-all, ◌-◌, inl, inr, Bool-cases,
}
use android_device_gionee_p.Common.Int.{ℤ, pos, negsuc, ltb_ℤ, eqb_ℤ}
use android_device_gionee_p.Common.State.{State}
use android_device_gionee_p.Format.{Text, codes, newline, stored}
use android_device_gionee_p.Wifi.Netlink.{Bytes}
use android_device_gionee_p.Wifi.Strings.{behind_blank}
use android_device_gionee_p.Wifi.TestMode.{Radio, wpas_get_sta_statistics, wpas_get_sta_link_detect}
use android_device_gionee_p.Wifi.TestMode.Wapi.{send_msg, set_wapi_key, WapiKey}
use android_device_gionee_p.Wifi.Driver.{
  Platform, Driver, on_radio, returned, Bss, Effect, stop_iface, set_iface_flags, set_country_at,
  set_country, send_country, mac_addr_text, iface_down, announced_stopped, effect, called,
  deauthenticated,
}
use android_device_gionee_p.Wifi.Driver.Commands.{
  zero_or_fails, mcc_at, set_mcc, software_command, number_command, get_statistics,
  wpa_driver_get_sta_link_detect, print_statistics, print_links, fresh_statistics,
  fresh_link_detect,
}
use android_device_gionee_p.Wifi.Driver.Dispatch.{
  wapi_result, sigma_behind_ssid, sigma_behind_addr, set_opps_behind,
}
use android_device_gionee_p.Wifi.Print.{reads_past_reserved}
use android_device_gionee_p.Wifi.Driver.Buffer.{
  IsReply, IsWithin, IsPrinted, fits-IsPrinted, print_sta_statistics-IsPrinted,
  print_link_detect-IsPrinted, IsWithin-printed, IsWithin-same, IsWithin-failed, IsWithin-done,
  IsWithin-undefined, when-IsWithin, reads-IsWithin,
}

abbrev pub IsNotPositive : ℤ → Type 0
IsNotPositive (pos n) = n ≤ 0
IsNotPositive (negsuc n) = Unit {0}

-- The text of "MACADDR".
abbrev pub own_address : Platform → Bss → Text
own_address os bss = codes "Macaddr = " ++ os.mac_text bss.own_addr ++ newline

silent : (ret : ℤ) (text : Text) → IsNotPositive ret → IsReply (returned ret) text
silent (pos n) text h = omega (arith, h)
silent (negsuc n) text h = tt

negative : (ret : ℤ) → ltb_ℤ ret (pos 0) ≡ true → IsNotPositive ret
negative (pos n) h = ground arith
negative (negsuc n) h = tt

whole-IsPrinted :
    (buflen : ℕ) (text old : Text)
    → length text < buflen
    → IsPrinted buflen old (length text) (stored buflen text)
whole-IsPrinted zero text old h = absurd (omega (arith, h))
whole-IsPrinted (suc n) text old h =
    let all : length (stored (suc n) text) ≡ length text =
      ap length (take-all (suc n - 1) text (omega (arith, h))) in
    fits-IsPrinted n old (stored (suc n) text) (length text) (omega (arith, all, h))
      (omega (arith, all))

module _ (os : Platform) (buflen : ℕ) where
  print_statistics-IsWithin :
      (ret : ℤ) (d : Driver) → IsWithin buflen d (print_statistics os ret buflen d)
  unfolding print_statistics
  print_statistics-IsWithin ret d =
      let past = reads_past_reserved os.mac_text d.radio.sta_statistics buflen in
      let e = record d { overreads = past + d.overreads } in
      let printed =
        IsWithin-printed buflen _ _ e
          (print_sta_statistics-IsPrinted os.mac_text d.radio.sta_statistics buflen d.buf) in
      when-IsWithin buflen (ltb_ℤ ret (pos 0)) _ _ d (IsWithin-failed buflen d)
        (record { bound = printed.bound; reply = printed.reply })

  pub get_statistics-IsWithin :
      (addr : Option Bytes) (d : Driver) → IsWithin buflen d (get_statistics os addr buflen d)
  unfolding get_statistics
  get_statistics-IsWithin none d = IsWithin-failed buflen d
  get_statistics-IsWithin (some addr) d =
      let (ret, e) =
        on_radio (wpas_get_sta_statistics os.nl os.config os.sizes (some addr))
          (fresh_statistics os d) in
      let rest = print_statistics-IsWithin ret e in
      record { bound = rest.bound; reply = rest.reply }

  pub link_detect-IsWithin :
      (d : Driver) → IsWithin buflen d (wpa_driver_get_sta_link_detect os buflen d)
  unfolding wpa_driver_get_sta_link_detect print_links
  link_detect-IsWithin d =
      let (ret, e) =
        on_radio (wpas_get_sta_link_detect os.nl os.config os.sizes) (fresh_link_detect os d) in
      let rest : IsWithin buflen e (print_links os ret buflen e) =
        when-IsWithin buflen (ltb_ℤ ret (pos 0)) _ _ e (IsWithin-failed buflen e) (
          IsWithin-printed buflen _ _ e
            (print_link_detect-IsPrinted e.radio.sta_link_detect buflen e.buf)) in
      record { bound = rest.bound; reply = rest.reply }

  pub number_command-IsWithin :
      (adr offset : ℕ) (n : Option ℤ) (d : Driver)
      → IsWithin buflen d (number_command os adr offset n d)
  unfolding number_command software_command
  number_command-IsWithin adr offset none d = IsWithin-failed buflen d
  number_command-IsWithin adr offset (some n) d = IsWithin-done buflen _ d refl

  pub set_iface_flags-IsWithin :
      (up message : Effect) (d : Driver)
      → IsNotPositive (os.answer d.calls)
      → IsWithin buflen d (set_iface_flags os up message d)
  unfolding set_iface_flags
  set_iface_flags-IsWithin up message d h =
      IsWithin-same buflen _ d (ground arith) (λ text. silent _ text h)

  -- The flags are the first call or, behind `wpa_drv_deauthenticate`, the second one.
  pub stop_iface-IsWithin :
      (bss : Bss) (d : Driver)
      → IsNotPositive (os.answer (if bss.associated then suc d.calls else d.calls))
      → IsWithin buflen d (stop_iface os bss d)
  unfolding stop_iface
  stop_iface-IsWithin bss d h =
      let fits : Bool → Type 0 =
        λ b. IsNotPositive (os.answer (if b then suc d.calls else d.calls)) in
      elim (Bool-cases bss.associated) [
        | inl linked ↦
            let away = effect deauthenticated (called d) in
            let down =
              set_iface_flags-IsWithin iface_down announced_stopped away (subst fits linked h) in
            rw (linked, stop_iface)
              (reads-IsWithin buflen bss _ d (record { bound = down.bound; reply = down.reply }))
        | inr alone ↦
            rw (alone, stop_iface)
              (set_iface_flags-IsWithin iface_down announced_stopped d (subst fits alone h))
      ]

  sent-IsWithin :
      (ret : ℤ) (e d : Driver)
      → e.buf ≡ d.buf
      → IsWithin buflen d (if ltb_ℤ ret (pos 0) then (returned ret, e) else (returned (pos 0), e))
  sent-IsWithin ret e d same = elim (Bool-cases (ltb_ℤ ret (pos 0))) [
    | inl bad ↦ rw bad (IsWithin-same buflen _ d same (λ text. silent ret text (negative ret bad)))
    | inr good ↦ rw good (IsWithin-done buflen e d same)
  ]

  pub country-IsWithin :
      (alpha2 : Option Text) (d : Driver) → IsWithin buflen d (set_country_at os alpha2 d)
  unfolding set_country_at set_country send_country
  country-IsWithin none d = IsWithin-undefined buflen d
  country-IsWithin (some alpha2) d =
      when-IsWithin buflen (ltb_ℤ (os.answer d.calls) (pos 0)) _ _ d
        (IsWithin-same buflen _ d refl (λ text. tt))
        (when-IsWithin buflen (leb 11 (length (codes "COUNTRY " ++ alpha2))) _ _ d
          (IsWithin-same buflen _ d refl (λ text. tt))
          (sent-IsWithin (os.answer (suc d.calls)) _ d refl))

  pub mac_addr-IsWithin :
      (bss : Bss) (d : Driver)
      → length (own_address os bss) < buflen
      → IsWithin buflen d (mac_addr_text os bss buflen d)
  unfolding mac_addr_text
  mac_addr-IsWithin bss d h = IsWithin-printed buflen _ _ d (whole-IsPrinted buflen _ d.buf h)

  pub mcc_at-IsWithin : (value : Option Text) (d : Driver) → IsWithin buflen d (mcc_at value d)
  unfolding mcc_at set_mcc
  mcc_at-IsWithin none d = IsWithin-failed buflen d
  mcc_at-IsWithin (some value) d = IsWithin-done buflen _ d refl

  behind_ssid-IsWithin :
      (index value : ℤ) (ssid : Option Text) (d : Driver)
      → IsWithin buflen d (sigma_behind_ssid os index value ssid d)
  unfolding sigma_behind_ssid
  behind_ssid-IsWithin index value none d = IsWithin-undefined buflen d
  behind_ssid-IsWithin index value (some ssid) d = IsWithin-done buflen _ d refl

  pub behind_addr-IsWithin :
      (index value : ℤ) (str : Text) (addr : Option Bytes) (d : Driver)
      → IsWithin buflen d (sigma_behind_addr os index value str addr d)
  behind_addr-IsWithin index value str none d = IsWithin-failed buflen d
  behind_addr-IsWithin index value str (some addr) d =
      behind_ssid-IsWithin index value (behind_blank str) d

  pub set_opps-IsWithin :
      (window : ℤ) (str : Option Text) (d : Driver)
      → IsWithin buflen d (set_opps_behind os window str d)
  unfolding set_opps_behind
  set_opps-IsWithin window none d = IsWithin-undefined buflen d
  set_opps-IsWithin window (some str) d =
      behind_addr-IsWithin (pos 107) window str (os.hwaddr_aton str) d

  wapi-IsWithin :
      (long room : Bool) (r : Radio) (d : Driver)
      → IsWithin buflen d (
          wapi_result os
            (if long then some (negsuc 0, d.radio) else if room then some (pos 0, r) else none)
            d)
  unfolding wapi_result
  wapi-IsWithin true room r d = IsWithin-same buflen _ d refl (λ text. tt)
  wapi-IsWithin false true r d = IsWithin-done buflen _ d refl
  wapi-IsWithin false false r d = IsWithin-undefined buflen d

  pub set_wapi-IsWithin :
      (key : WapiKey) (d : Driver)
      → IsWithin buflen d (wapi_result os (set_wapi_key os.nl os.config os.sizes key d.radio) d)
  unfolding set_wapi_key
  set_wapi-IsWithin key d = wapi-IsWithin _ _ _ d

  pub zero_or_fails-IsWithin :
      (m : State Radio ℤ) (d : Driver) → IsWithin buflen d (zero_or_fails os m d)
  zero_or_fails-IsWithin m d = elim (Bool-cases (eqb_ℤ (m d.radio).0 (pos 0))) [
    | inl good ↦ rw good (IsWithin-done buflen _ d refl)
    | inr bad ↦ rw bad (IsWithin-same buflen _ d refl (λ text. tt))
  ]

  pub send_msg-IsWithin : (len : ℤ) (d : Driver) → IsWithin buflen d (returned (send_msg len), d)
  unfolding send_msg
  send_msg-IsWithin len d = elim (Bool-cases (ltb_ℤ (pos 1024) len)) [
    | inl long ↦ rw long (IsWithin-failed buflen d)
    | inr fits ↦ rw fits (IsWithin-done buflen d d refl)
  ]
