-- ===== src/Wifi/Driver/Filters.antt =====
-- The commands of `wpa_driver_nl80211_driver_cmd` in mediatek_driver_cmd_nl80211.c that send a
-- number to the chip.
use android_device_gionee_p.Common.{
  ℕ, ◌+◌, ◌<◌, ◌≡◌, ◌%◌, ◌^◌, refl, ap, ◌∙◌, List, ◌∷◌, ◌++◌, true, some, arith, ◌||◌, ◌⊎◌, inl,
  inr,
}
use android_device_gionee_p.Common.Int.{ℤ, pos}
use android_device_gionee_p.Format.{Text, codes, decimal}
use android_device_gionee_p.Wifi.Netlink.{Bytes}
use android_device_gionee_p.Wifi.Strings.{
  strtol, skip_space, starts_with_nocase, equals_nocase, starts_with,
}
use android_device_gionee_p.Wifi.Strings.Numbers.{strtol-decimal}
use android_device_gionee_p.Wifi.TestMode.{
  sw_cmd, exchanged, no_message, no_room, testmode, on_answer, driver_sw_cmd,
}
use android_device_gionee_p.Wifi.TestMode.Sent.{handle_all-sent}
use android_device_gionee_p.Wifi.Parse.{command_of, tuning_command_of}
use android_device_gionee_p.Wifi.Driver.{Platform, Driver, returned, Bss}
use android_device_gionee_p.Wifi.Driver.Commands.{number_command, software_command}
use android_device_gionee_p.Wifi.Driver.Dispatch.{carry_out, driver_cmd}

-- The supplicant is there: every guard of the function passes.
pub record IsUp (bss : Bss) : Type 0 where
  pub drv : bss.has_drv ≡ true
  pub ctx : bss.has_ctx ≡ true
  pub conf : (bss.is_ap0 || bss.has_conf) ≡ true

module _ (os : Platform) where
  pub driver_cmd-up :
      (bss : Bss) (cmd : Text) (buflen : ℕ) (d : Driver)
      → IsUp bss
      → driver_cmd os bss cmd buflen d ≡ carry_out os bss buflen (command_of os.config cmd) d
  unfolding driver_cmd
  driver_cmd-up bss cmd buflen d up = rw (up.drv, up.ctx, up.conf, driver_cmd) refl

-- The three commands that take a number, with what each should send: an address, and an offset
-- that is added to the number.
pub data Tuning : Type 0 where
  filter_add filter_remove rate : Tuning

abbrev pub name_of : Tuning → Text
name_of filter_add = codes "rxfilter-add"
name_of filter_remove = codes "rxfilter-remove"
name_of rate = codes "smt-rate"

abbrev pub address_of : Tuning → ℕ
address_of filter_add = 0x9F000000
address_of filter_remove = 0x9F000000
address_of rate = 0xFFFF0123

abbrev pub offset_of : Tuning → ℕ
offset_of filter_add = 0x00900200
offset_of filter_remove = 0x00900300
offset_of rate = 0

module _ (os : Platform) (bss : Bss) (buflen : ℕ) (d : Driver) where
  command_of-tuning :
      (c : Tuning) (t : Text)
      → carry_out os bss buflen (command_of os.config (name_of c ++ t)) d
        ≡ number_command os (address_of c) (offset_of c) (strtol t) d
  unfolding carry_out command_of tuning_command_of starts_with_nocase equals_nocase starts_with
  command_of-tuning filter_add t = refl
  command_of-tuning filter_remove t = refl
  command_of-tuning rate t = refl

  blank_number : (n : ℕ) → n < 2 ^ 31 → strtol (b' ' ∷ decimal n) ≡ some (pos n)
  unfolding strtol skip_space
  blank_number n h = (strtol-decimal n h).0

  tuned :
      (c : Tuning) (n : ℕ)
      → IsUp bss
      → n < 2 ^ 31
      → driver_cmd os bss (name_of c ++ b' ' ∷ decimal n) buflen d
        ≡ software_command os (address_of c) ((n % 2 ^ 32 + offset_of c) % 2 ^ 32) d
  unfolding number_command
  tuned c n up h =
      driver_cmd-up os bss (name_of c ++ b' ' ∷ decimal n) buflen d up
      ∙ command_of-tuning c (b' ' ∷ decimal n)
      ∙ ap (λ z. number_command os (address_of c) (offset_of c) z d) (blank_number n h)

  software_command-sent :
      (adr dat : ℕ) (result : ℤ) (msgs : List Bytes)
      → d.radio.answer d.radio.attempts ≡ exchanged result msgs
      → ((software_command os adr dat d).0 ≡ returned (pos 0))
        × ((software_command os adr dat d).1.radio.sent
            ≡ sw_cmd (record { index = 0x01000001; buflen = os.sizes.sw_cmd_size }) 1 adr dat
              ∷ d.radio.sent)
  unfolding software_command driver_sw_cmd testmode on_answer
  software_command-sent adr dat result msgs e =
      (refl, rw (e, on_answer) (handle_all-sent os.nl _ msgs _))

  software_command-unsent :
      (adr dat : ℕ)
      → (d.radio.answer d.radio.attempts ≡ no_message) ⊎ (d.radio.answer d.radio.attempts ≡ no_room)
      → ((software_command os adr dat d).0 ≡ returned (pos 0))
        × ((software_command os adr dat d).1.radio.sent ≡ d.radio.sent)
  unfolding software_command driver_sw_cmd testmode on_answer
  software_command-unsent adr dat (inl e) = (refl, rw (e, on_answer) refl)
  software_command-unsent adr dat (inr e) = (refl, rw (e, on_answer) refl)

  no_wrap :
      (c : Tuning) (n : ℕ) → n < 2 ^ 31 → (n % 2 ^ 32 + offset_of c) % 2 ^ 32 ≡ n + offset_of c
  no_wrap filter_add n h = omega arith
  no_wrap filter_remove n h = omega arith
  no_wrap rate n h = omega arith

  -- On an interface that is up, "rxfilter-add N", "rxfilter-remove N" and "smt-rate N", with N
  -- written in decimal and below 2^31, return 0 and send one software command, if the exchange
  -- takes place: it sets the command's address to N plus the command's offset. The number does not
  -- wrap around, and the result of the exchange does not matter.
  pub tuning_lem :
      (c : Tuning) (n : ℕ) (result : ℤ) (msgs : List Bytes)
      → IsUp bss
      → n < 2 ^ 31
      → d.radio.answer d.radio.attempts ≡ exchanged result msgs
      → let (res, d') = driver_cmd os bss (name_of c ++ b' ' ∷ decimal n) buflen d in
        (res ≡ returned (pos 0))
        × (d'.radio.sent
            ≡ sw_cmd
                (record { index = 0x01000001; buflen = os.sizes.sw_cmd_size })
                1
                (address_of c)
                (n + offset_of c)
              ∷ d.radio.sent)
  tuning_lem c n result msgs up h e =
      rw (tuned c n up h, no_wrap c n h)
        (software_command-sent (address_of c) (n + offset_of c) result msgs e)

  -- When there is no memory for the message, or no room in it, the same commands return 0 all the
  -- same, and nothing is sent.
  pub tuning_unsent :
      (c : Tuning) (n : ℕ)
      → IsUp bss
      → n < 2 ^ 31
      → (d.radio.answer d.radio.attempts ≡ no_message) ⊎ (d.radio.answer d.radio.attempts ≡ no_room)
      → let (res, d') = driver_cmd os bss (name_of c ++ b' ' ∷ decimal n) buflen d in
        (res ≡ returned (pos 0)) × (d'.radio.sent ≡ d.radio.sent)
  tuning_unsent c n up h e = rw (tuned c n up h) (software_command-unsent (address_of c) _ e)
