-- ===== src/Lights.antt =====
-- liblight/lights.c: the backlight, the buttons, and one RGB LED shared by three lights.
-- Each entry point holds `g_lock` from its first use of the state to its last, so that a call is
-- one step on the state. The files are those of the module Sysfs.
pub mod Brightness
pub mod Slots
pub mod Priority
pub mod Driver
pub mod Display
pub mod Refines
pub mod Shown
pub mod Faults
pub mod Device
pub mod Code
pub mod Threads
mod Tests
use android_device_gionee_p.Common.{
  ℕ, zero, suc, ◌+◌, ◌*◌, ◌/◌, ◌%◌, ◌^◌, List, [], ◌∷◌, Bool, true, false, ◌&&◌, ◌||◌, Option, none,
  some, ltb, leb, ◌==◌, if◌then◌else◌, length, get_or, set,
}
use android_device_gionee_p.Common.Int.{ℤ, pos, negsuc, pos_part, neg_ℕ, ltb_ℤ, leb_ℤ, eqb_ℤ}
use android_device_gionee_p.Common.State.{State, pure, ◌>>=◌, ◌>>◌}
use android_device_gionee_p.Sysfs.{
  File, lcd_file, red_led_file, green_led_file, blue_led_file, red_timeout_file, green_timeout_file,
  blue_timeout_file, rgb_locked_file, led_enable_file, Sysfs, write_int, write_on_off,
}

-- `light_state_t.flashMode`; the header's other numbers take the `default` of a switch.
pub data FlashMode : Type 0 where
  flash_none flash_timed flash_hardware : FlashMode
  flash_other : ℤ → FlashMode

-- The fields of `light_state_t` that the source reads; `color` is an `unsigned int`.
pub record LightState : Type 0 where
  pub color : ℕ
  pub flash_mode : FlashMode
  pub flash_on_ms : ℤ
  pub flash_off_ms : ℤ

pub record LedConfig : Type 0 where
  pub color_rgb : ℕ
  pub on_ms : ℤ
  pub off_ms : ℤ

abbrev pub led_off : LedConfig
led_off = record { color_rgb = 0; on_ms = pos 0; off_ms = pos 0 }

-- The statics `g_leds` and `g_cur_led`, and the files.
pub record Lights : Type 0 where
  pub leds : List LedConfig
  pub cur_led : ℤ
  pub sysfs : Sysfs

abbrev pub init : Sysfs → Lights
init s = record { leds = led_off ∷ led_off ∷ led_off ∷ []; cur_led = negsuc 0; sysfs = s }

-- `color & 0x00ffffff` and the channels behind it.
abbrev pub rgb : ℕ → ℕ
rgb color = color % 2 ^ 24

abbrev pub red_of : ℕ → ℕ
red_of color = color / 2 ^ 16 % 2 ^ 8

abbrev pub green_of : ℕ → ℕ
green_of color = color / 2 ^ 8 % 2 ^ 8

abbrev pub blue_of : ℕ → ℕ
blue_of color = color % 2 ^ 8

unfoldable pub rgb_to_brightness : LightState → ℕ
rgb_to_brightness state =
    let color = rgb state.color in
    (77 * red_of color + 150 * green_of color + 29 * blue_of color) / 2 ^ 8

-- Run a file action inside the state of the module.
abbrev pub on_sysfs : State Sysfs ℤ → State Lights ℤ
on_sysfs m l = let (err, s) = m l.sysfs in (err, record l { sysfs = s })

pub set_light_backlight : LightState → State Lights ℤ
set_light_backlight state = on_sysfs (write_int lcd_file (pos (rgb_to_brightness state)))

pub set_light_buttons : LightState → State Lights ℤ
set_light_buttons state = on_sysfs (write_int led_enable_file (pos (rgb_to_brightness state)))

pub write_config : LedConfig → State Sysfs ℤ
write_config led = do
  write_int rgb_locked_file (pos 0)
  write_int red_led_file (pos (red_of led.color_rgb))
  write_int green_led_file (pos (green_of led.color_rgb))
  write_int blue_led_file (pos (blue_of led.color_rgb))
  write_on_off red_timeout_file led.on_ms led.off_ms
  write_on_off green_timeout_file led.on_ms led.off_ms
  write_on_off blue_timeout_file led.on_ms led.off_ms
  write_int rgb_locked_file (pos 1)
  pure (pos 0)

-- A null pointer stands for `led_off`.
abbrev pub or_off : Option LedConfig → LedConfig
or_off none = led_off
or_off (some led) = led

pub write_leds_locked : Option LedConfig → State Sysfs ℤ
write_leds_locked led = write_config (or_off led)

-- `led->onMS` and `led->offMS` after the switch on the flash mode.
abbrev pub timing : FlashMode → LightState → ℤ × ℤ
timing flash_timed state = (state.flash_on_ms, state.flash_off_ms)
timing flash_hardware state = (state.flash_on_ms, state.flash_off_ms)
timing _ state = (pos 0, pos 0)

pub config_of : LightState → LedConfig
config_of state =
    let (on, off) = timing state.flash_mode state in
    record { color_rgb = rgb state.color; on_ms = on; off_ms = off }

abbrev pub led_at : List LedConfig → ℕ → LedConfig
led_at leds i = get_or leds i led_off

-- `for (i = type - 1; i >= 0; i--)`: the first lit slot below `n`, from above.
pub find_lit : List LedConfig → ℕ → Option ℕ
find_lit leds zero = none
find_lit leds (suc i) =
    let rest = find_lit leds i in if ltb 0 (led_at leds i).color_rgb then some i else rest

-- The slot that the loop stopped at is shown; past its end `i` is -1 and the LED goes off.
pub switch_to : Option ℕ → State Lights ℤ
switch_to (some i) l =
    let (err, s) = write_leds_locked (some (led_at l.leds i)) l.sysfs in
    (err, record l { cur_led = pos i; sysfs = s })
switch_to none l =
    let (err, s) = write_leds_locked none l.sysfs in
    (err, record l { cur_led = negsuc 0; sysfs = s })

-- The part of `set_light_locked` behind the store into `g_leds[type]`.
pub show_slot : ℕ → LedConfig → State Lights ℤ
unfolding switch_to find_lit
show_slot type led l =
    if ltb 0 led.color_rgb
    then if leb_ℤ l.cur_led (pos type)
      then (let (err, s) = write_leds_locked (some led) l.sysfs in
          (err, record l { cur_led = pos type; sysfs = s }))
      else (pos 0, l)
    else if eqb_ℤ (pos type) l.cur_led
    then switch_to (find_lit l.leds type) l
    else (pos 0, l)

abbrev pub einval : ℕ
einval = 22

pub set_light_locked : LightState → ℤ → State Lights ℤ
unfolding show_slot config_of
set_light_locked state (negsuc n) l = (neg_ℕ einval, l)
set_light_locked state (pos type) l =
    if leb (length l.leds) type
    then (neg_ℕ einval, l)
    else show_slot type (config_of state) (record l { leds = set l.leds type (config_of state) })

pub set_light_battery : LightState → State Lights ℤ
set_light_battery state = do set_light_locked state (pos 0); pure (pos 0)

pub set_light_notifications : LightState → State Lights ℤ
set_light_notifications state = do set_light_locked state (pos 1); pure (pos 0)

-- The switch of `set_light_attention` on `fixed.flashMode`.
pub fix_attention : FlashMode → LightState → LightState
fix_attention flash_none fixed = record fixed { color = 0 }
fix_attention flash_hardware fixed =
    if ltb_ℤ (pos 0) fixed.flash_on_ms && eqb_ℤ fixed.flash_off_ms (pos 0)
    then record fixed { flash_mode = flash_none }
    else fixed
fix_attention _ fixed = fixed

pub set_light_attention : LightState → State Lights ℤ
unfolding fix_attention
set_light_attention state = do
  set_light_locked (fix_attention state.flash_mode state) (pos 2)
  pure (pos 0)

-- The lights that `open_lights` hands out, each with its `set_light`.
pub data Light : Type 0 where
  backlight notifications attention battery buttons : Light

abbrev pub set_light : Light → LightState → State Lights ℤ
set_light backlight = set_light_backlight
set_light notifications = set_light_notifications
set_light attention = set_light_attention
set_light battery = set_light_battery
set_light buttons = set_light_buttons

-- The calls of the framework, in the order in which they get the lock.
unfoldable pub run : Lights → List (Light × LightState) → Lights
run l [] = l
run l ((light, state) ∷ rest) = run (set_light light state l).1 rest
