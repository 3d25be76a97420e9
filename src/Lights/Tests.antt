-- ===== src/Lights/Tests.antt =====
-- Runs of liblight/lights.c at concrete inputs.
use android_device_gionee_p.Common.{
  ℕ, zero, suc, ◌+◌, ◌*◌, ◌/◌, ◌^◌, ◌≤◌, ◌≡◌, ◌⊎◌, inl, inr, refl, List, [], ◌∷◌, false, arith,
}
use android_device_gionee_p.Common.Int.{pos}
use android_device_gionee_p.Sysfs.{Sysfs, writes, open_fails, lcd_file, led_enable_file}
use android_device_gionee_p.Sysfs.Writes.{IsUp}
use android_device_gionee_p.Lights.{
  FlashMode, flash_none, flash_timed, LightState, led_off, led_at, init, rgb_to_brightness,
  set_light_backlight, set_light_buttons, set_light_locked, set_light_attention,
  set_light_notifications, set_light_battery, Light, backlight, notifications, attention, battery,
  run,
}
use android_device_gionee_p.Lights.Brightness.{Sets, set_light_backlight_lem}
use android_device_gionee_p.Lights.Priority.{IsTop, set_light_locked-IsTop, run-IsTop, init-IsTop}
use android_device_gionee_p.Lights.Driver.{led_view, text_of}
use android_device_gionee_p.Lights.Refines.{boot_wish, wanted}
use android_device_gionee_p.Lights.Shown.{AreRequests, lit_request_shown, dark_request_shown}
use android_device_gionee_p.Lights.Faults.{run_answers_irrelevant}

abbrev boot : Sysfs
boot = record {
  answer = λ n. writes;
  attempts = 0;
  written = [];
  int_warned = false;
  on_off_warned = false;
  warnings = [];
}

-- A kernel without the LED driver.
abbrev broken : Sysfs
broken = record boot { answer = λ n. open_fails 2 }

boot-IsUp : IsUp boot
boot-IsUp n = refl

abbrev asks : ℕ → FlashMode → LightState
asks color mode = record {
  color = color;
  flash_mode = mode;
  flash_on_ms = pos 500;
  flash_off_ms = pos 2000;
}

-- A charging battery, a message, and an attention light that is taken back.
abbrev evening : List (Light × LightState)
evening =
    (battery, asks 0xff00ff00 flash_none)
    ∷ (attention, asks 0xffff0000 flash_timed)
    ∷ (notifications, asks 0xff0000ff flash_timed)
    ∷ (backlight, asks 0xff808080 flash_none)
    ∷ (attention, asks 0xffff0000 flash_none)
    ∷ []

evening_requests : AreRequests evening
evening_requests = omega arith

above_notifications : (i : ℕ) → (i ≤ 1) ⊎ ((wanted evening boot_wish i).color_rgb ≡ 0)
unfolding wanted
above_notifications zero = inl (omega arith)
above_notifications (suc zero) = inl (omega arith)
above_notifications (suc (suc zero)) = inr refl
above_notifications (suc (suc (suc i))) = inr (ground arith)

lit_request_shown_example :
    led_view (run (init boot) evening).sysfs.written ≡ text_of (wanted evening boot_wish 1)
unfolding wanted
lit_request_shown_example =
    lit_request_shown boot evening boot-IsUp evening_requests 1 (omega arith) above_notifications

-- The message blinks in blue.
evening_wish :
    wanted evening boot_wish 1 ≡ record { color_rgb = 255; on_ms = pos 500; off_ms = pos 2000 }
unfolding wanted
evening_wish = refl

abbrev night : List (Light × LightState)
night = (battery, asks 0xff00ff00 flash_none) ∷ (battery, asks 0xff000000 flash_none) ∷ []

night_requests : AreRequests night
night_requests = omega arith

all_dark : (i : ℕ) → (wanted night boot_wish i).color_rgb ≡ 0
unfolding wanted
all_dark zero = refl
all_dark (suc i) = ground arith

dark_request_shown_example :
    (led_view (run (init boot) night).sysfs.written ≡ text_of led_off)
    ⊎ (led_view (run (init boot) night).sysfs.written ≡ led_view boot.written)
dark_request_shown_example = dark_request_shown boot night boot-IsUp night_requests all_dark

run-IsTop_example : IsTop (run (init broken) evening)
run-IsTop_example = run-IsTop evening (init broken) (init-IsTop broken)

evening_current : (run (init broken) evening).cur_led ≡ pos 1
unfolding run set_light_locked set_light_attention set_light_backlight set_light_notifications
    set_light_battery
evening_current = refl

set_light_locked-IsTop_example :
    IsTop (set_light_locked (asks 0xffff0000 flash_timed) (pos 2) (init boot)).1
set_light_locked-IsTop_example =
    set_light_locked-IsTop (asks 0xffff0000 flash_timed) (pos 2) (init boot) (init-IsTop boot)

-- A grey has the brightness of its channels.
grey : rgb_to_brightness (asks 0xff808080 flash_none) ≡ 128
unfolding rgb_to_brightness
grey = refl

set_light_backlight_lem_example :
    let state = asks 0xff804020 flash_none in
    let brightness = (77 * 0x80 + 150 * 0x40 + 29 * 0x20) / 2 ^ 8 in
    Sets brightness (init boot) lcd_file (set_light_backlight state (init boot))
    × Sets brightness (init boot) led_enable_file (set_light_buttons state (init boot))
set_light_backlight_lem_example =
    set_light_backlight_lem (asks 0xff804020 flash_none) (init boot) 0xff 0x80 0x40 0x20 refl
      (omega arith) (omega arith) (omega arith) refl

run_answers_irrelevant_example :
    ((run (init boot) evening).cur_led ≡ (run (init broken) evening).cur_led)
    × ((i : ℕ)
        → led_at (run (init boot) evening).leds i ≡ led_at (run (init broken) evening).leds i)
run_answers_irrelevant_example = run_answers_irrelevant evening boot broken
