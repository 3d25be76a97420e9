-- ===== src/Lights/Shown.antt =====
-- The refinement of liblight/lights.c: from boot, through any calls of the five lights.
use mathlib.Core.Path.{fun_ext}
use android_device_gionee_p.Common.{
  ℕ, zero, suc, ◌<◌, ◌≤◌, ◌≡◌, ◌⊎◌, inl, inr, refl, ◌∙◌, ap, List, [], ◌∷◌, arith,
}
use android_device_gionee_p.Common.Int.{ℤ, pos, negsuc}
use android_device_gionee_p.Sysfs.{Sysfs, File, lcd_file, led_enable_file, write_int}
use android_device_gionee_p.Sysfs.Writes.{IsUp, int_line}
use android_device_gionee_p.Sysfs.Appends.{write_int-Appends}
use android_device_gionee_p.Lights.{
  LightState, FlashMode, LedConfig, led_off, led_at, Lights, init, Light, set_light, run,
  set_light_backlight, set_light_buttons, set_light_battery, set_light_notifications,
  set_light_attention, backlight, buttons, battery, notifications, attention, fix_attention,
  rgb_to_brightness, on_sysfs,
}
use android_device_gionee_p.Lights.Brightness.{brightness-IsInt32}
use android_device_gionee_p.Lights.Priority.{Top, Top-unique, run-IsTop, init-IsTop}
use android_device_gionee_p.Lights.Driver.{led_view, text_of, view-lcd, view-buttons}
use android_device_gionee_p.Lights.Display.{
  shown, Shows, IsSound, IsRequest, set_light_locked-IsSound,
}
use android_device_gionee_p.Lights.Refines.{boot_wish, wanted, leds-run}

-- Writing a brightness leaves the LED's files alone.
brightness-IsSound :
    (boot : Sysfs) (f : File) (state : LightState) (l : Lights)
    → ((w : List (File × List ℕ))
        → led_view ((f, int_line (pos (rgb_to_brightness state))) ∷ w) ≡ led_view w)
    → IsSound boot l
    → IsSound boot (on_sysfs (write_int f (pos (rgb_to_brightness state))) l).1
brightness-IsSound boot f state l apart h =
    let writes = write_int-Appends f (pos (rgb_to_brightness state)) (brightness-IsInt32 state) in
    record {
      up = writes.up l.sysfs h.up;
      timed = h.timed;
      shows = rw (writes.written l.sysfs h.up, apart l.sysfs.written) h.shows;
    }

pub fix_attention-IsRequest :
    (mode : FlashMode) (state : LightState) → IsRequest state → IsRequest (fix_attention mode state)
unfolding fix_attention
fix_attention-IsRequest mode state h = ground arith

set_light-IsSound :
    (boot : Sysfs) (light : Light) (state : LightState) (l : Lights)
    → IsRequest state
    → IsSound boot l
    → IsSound boot (set_light light state l).1
unfolding set_light_backlight set_light_buttons set_light_battery set_light_notifications
    set_light_attention
set_light-IsSound boot backlight state l request h =
    brightness-IsSound boot lcd_file state l (view-lcd _) h
set_light-IsSound boot buttons state l request h =
    brightness-IsSound boot led_enable_file state l (view-buttons _) h
set_light-IsSound boot battery state l request h =
    set_light_locked-IsSound boot state (pos 0) l request h
set_light-IsSound boot notifications state l request h =
    set_light_locked-IsSound boot state (pos 1) l request h
set_light-IsSound boot attention state l request h =
    set_light_locked-IsSound boot (fix_attention state.flash_mode state) (pos 2) l
      (fix_attention-IsRequest state.flash_mode state request) h

-- Every call's flash times are C `int`s.
abbrev pub AreRequests : List (Light × LightState) → Type 0
AreRequests [] = Unit {0}
AreRequests ((light, state) ∷ calls) = IsRequest state × AreRequests calls

run-IsSound :
    (boot : Sysfs) (calls : List (Light × LightState)) (l : Lights)
    → AreRequests calls
    → IsSound boot l
    → IsSound boot (run l calls)
unfolding run
run-IsSound boot [] l requests h = h
run-IsSound boot ((light, state) ∷ calls) l (request, requests) h =
    run-IsSound boot calls (set_light light state l).1 requests
      (set_light-IsSound boot light state l request h)

led_at-init : (boot : Sysfs) (i : ℕ) → led_at (init boot).leds i ≡ boot_wish i
led_at-init boot zero = refl
led_at-init boot (suc zero) = refl
led_at-init boot (suc (suc zero)) = refl
led_at-init boot (suc (suc (suc i))) = refl

init-IsSound : (boot : Sysfs) → IsUp boot → IsSound boot (init boot)
init-IsSound boot up = record {
  up = up;
  timed = λ i. rw (led_at-init boot i) (omega arith);
  shows = inr (refl, refl);
}

-- What a sound state shows, by what `g_cur_led` names.
view_of_lit :
    (boot : Sysfs) (l : Lights) (c : ℕ)
    → l.cur_led ≡ pos c
    → Shows boot l
    → led_view l.sysfs.written ≡ text_of (led_at l.leds c)
view_of_lit boot l c lit (inl view) = view ∙ ap (λ (cur : ℤ). text_of (shown l.leds cur)) lit
view_of_lit boot l c lit (inr (dark, view)) = cc

view_of_dark :
    (boot : Sysfs) (l : Lights)
    → l.cur_led ≡ negsuc 0
    → Shows boot l
    → (led_view l.sysfs.written ≡ text_of led_off)
      ⊎ (led_view l.sysfs.written ≡ led_view boot.written)
view_of_dark boot l dark (inl view) = inl (view ∙ ap (λ (cur : ℤ). text_of (shown l.leds cur)) dark)
view_of_dark boot l dark (inr (_, view)) = inr view

module _ (boot : Sysfs) (calls : List (Light × LightState)) where
  pub slots-wanted : (i : ℕ) → led_at (run (init boot) calls).leds i ≡ wanted calls boot_wish i
  slots-wanted i =
      leds-run calls (init boot) refl i
      ∙ ap (λ (w : ℕ → LedConfig). wanted calls w i) (fun_ext (led_at-init boot))

  color-wanted :
      (i : ℕ)
      → (led_at (run (init boot) calls).leds i).color_rgb ≡ (wanted calls boot_wish i).color_rgb
  color-wanted i = ap (λ (led : LedConfig). led.color_rgb) (slots-wanted i)

  cur_led-Top : (c : ℤ) → Top (run (init boot) calls).leds c → (run (init boot) calls).cur_led ≡ c
  cur_led-Top c top =
      Top-unique (run (init boot) calls).leds (run (init boot) calls).cur_led c
        (run-IsTop calls (init boot) (init-IsTop boot)) top

  module _ (up : IsUp boot) (requests : AreRequests calls) where
    pub sound : IsSound boot (run (init boot) calls)
    sound = run-IsSound boot calls (init boot) requests (init-IsSound boot up)

    -- While the files can be written: if slot `c` is lit by its light's last request and no
    -- higher slot is lit by its own, the LED's files hold the colors and times of that request.
    pub lit_request_shown :
        (c : ℕ)
        → 0 < (wanted calls boot_wish c).color_rgb
        → ((i : ℕ) → (i ≤ c) ⊎ ((wanted calls boot_wish i).color_rgb ≡ 0))
        → led_view (run (init boot) calls).sysfs.written ≡ text_of (wanted calls boot_wish c)
    lit_request_shown c lit others =
        view_of_lit boot (run (init boot) calls) c
          (cur_led-Top (pos c)
            (omega (arith, color-wanted c, lit), λ i. omega (arith, others i, color-wanted i)))
          sound.shows
        ∙ ap text_of (slots-wanted c)

    -- While the files can be written: if no light's last request is lit, the LED's files hold the
    -- dark configuration, or what they held at boot.
    pub dark_request_shown :
        ((i : ℕ) → (wanted calls boot_wish i).color_rgb ≡ 0)
        → (led_view (run (init boot) calls).sysfs.written ≡ text_of led_off)
          ⊎ (led_view (run (init boot) calls).sysfs.written ≡ led_view boot.written)
    dark_request_shown dark =
        view_of_dark boot (run (init boot) calls)
          (cur_led-Top (negsuc 0) (refl, λ i. color-wanted i ∙ dark i)) sound.shows
