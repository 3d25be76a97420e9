-- ===== src/Lights/Code.antt =====
-- The calls of liblight/lights.c between `pthread_mutex_lock` and `pthread_mutex_unlock`, one
-- access to `g_leds`, `g_cur_led` or a file at a time.
pub mod Whole
pub mod Count
pub mod Along
pub mod Visible
use android_device_gionee_p.Common.{
  ℕ, zero, suc, List, Option, none, some, ltb, leb, if◌then◌else◌, set,
}
use android_device_gionee_p.Common.Int.{ℤ, pos, negsuc, leb_ℤ, eqb_ℤ}
use android_device_gionee_p.Common.State.{State}
use android_device_gionee_p.Sysfs.{
  File, lcd_file, red_led_file, green_led_file, blue_led_file, red_timeout_file, green_timeout_file,
  blue_timeout_file, rgb_locked_file, led_enable_file, write_int, write_on_off,
}
use android_device_gionee_p.Lights.{
  FlashMode, LightState, LedConfig, led_off, Lights, rgb, red_of, green_of, blue_of,
  rgb_to_brightness, timing, led_at, fix_attention, Light, backlight, notifications, attention,
  battery, buttons,
}

-- What is left of a call: its next access, and what follows for each value that is read. Each
-- `read_led` is for one field.
pub data Code : Type 0 where
  done : ℤ → Code
  write : File → ℤ → (ℤ → Code) → Code
  write_blink : File → ℤ → ℤ → (ℤ → Code) → Code
  read_led : ℕ → (LedConfig → Code) → Code
  read_cur_led : (ℤ → Code) → Code
  store_on : ℕ → ℤ → Code → Code
  store_off : ℕ → ℤ → Code → Code
  store_color : ℕ → ℕ → Code → Code
  store_cur_led : ℤ → Code → Code

-- What a pointer to a configuration leads to; `led_off`, for null, is no part of `g_leds`.
abbrev pub chosen : Option ℕ → List LedConfig → LedConfig
chosen none leds = led_off
chosen (some i) leds = led_at leds i

pub reading : Option ℕ → (LedConfig → Code) → Code
reading none next = next led_off
reading (some i) next = read_led i next

-- `write_on_off(file, led->onMS, led->offMS)`
pub blink : Option ℕ → File → Code → Code
unfolding reading
blink led file rest =
    reading led λ on. reading led λ off. write_blink file on.on_ms off.off_ms λ _. rest

-- `write_leds_locked`, which reads each field through the pointer where it uses it.
pub leds_code : Option ℕ → Code → Code
unfolding reading blink
leds_code led rest =
    let blinks = blink led red_timeout_file (
      blink led green_timeout_file
        (blink led blue_timeout_file (write rgb_locked_file (pos 1) λ _. rest))) in
    reading led λ red. reading led λ green. reading led λ blue. write rgb_locked_file (pos 0) λ _.
      write red_led_file (pos (red_of red.color_rgb)) λ _.
        write green_led_file (pos (green_of green.color_rgb))
          λ _. write blue_led_file (pos (blue_of blue.color_rgb)) λ _. blinks

-- `for (i = type - 1; i >= 0; i--)`, and the writes behind it.
pub switch_code : ℕ → Code
unfolding leds_code
switch_code zero = leds_code none (store_cur_led (negsuc 0) (done (pos 0)))
switch_code (suc i) =
    let rest = switch_code i in
    read_led i λ led.
      if ltb 0 led.color_rgb
      then leds_code (some i) (store_cur_led (pos i) (done (pos 0)))
      else rest

-- `set_light_locked` for a slot that is there.
pub show_code : ℕ → Code
unfolding leds_code switch_code
show_code type =
    let lit = λ (cur : ℤ).
      if leb_ℤ cur (pos type)
      then leds_code (some type) (store_cur_led (pos type) (done (pos 0)))
      else done (pos 0) in
    let dark = λ (cur : ℤ). if eqb_ℤ (pos type) cur then switch_code type else done (pos 0) in
    read_led type λ led. read_cur_led λ cur. if ltb 0 led.color_rgb then lit cur else dark cur

pub slot_code : LightState → ℕ → Code
unfolding show_code
slot_code state type =
    let (on, off) = timing state.flash_mode state in
    store_on type on (store_off type off (store_color type (rgb state.color) (show_code type)))

unfoldable pub call_code : Light → LightState → Code
unfolding slot_code fix_attention
call_code backlight state = write lcd_file (pos (rgb_to_brightness state)) done
call_code buttons state = write led_enable_file (pos (rgb_to_brightness state)) done
call_code battery state = slot_code state 0
call_code notifications state = slot_code state 1
call_code attention state = slot_code (fix_attention state.flash_mode state) 2

-- Has a next access.
abbrev pub IsPending : Code → Type 0
IsPending (done ret) = ⊥
IsPending (write f value rest) = Unit {0}
IsPending (write_blink f on off rest) = Unit {0}
IsPending (read_led i rest) = Unit {0}
IsPending (read_cur_led rest) = Unit {0}
IsPending (store_on i on rest) = Unit {0}
IsPending (store_off i off rest) = Unit {0}
IsPending (store_color i color rest) = Unit {0}
IsPending (store_cur_led cur rest) = Unit {0}

-- One access. A finished call has none left.
unfoldable pub advance : Code → Lights → Code × Lights
advance (done ret) l = (done ret, l)
advance (write f value rest) l =
    let (err, s) = write_int f value l.sysfs in (rest err, record l { sysfs = s })
advance (write_blink f on off rest) l =
    let (err, s) = write_on_off f on off l.sysfs in (rest err, record l { sysfs = s })
advance (read_led i rest) l = (rest (led_at l.leds i), l)
advance (read_cur_led rest) l = (rest l.cur_led, l)
advance (store_on i on rest) l =
    (rest, record l { leds = set l.leds i (record (led_at l.leds i) { on_ms = on }) })
advance (store_off i off rest) l =
    (rest, record l { leds = set l.leds i (record (led_at l.leds i) { off_ms = off }) })
advance (store_color i color rest) l =
    (rest, record l { leds = set l.leds i (record (led_at l.leds i) { color_rgb = color }) })
advance (store_cur_led cur rest) l = (rest, record l { cur_led = cur })

-- All accesses of a call, one behind the other.
pub finish : Code → State Lights ℤ
finish (done ret) l = (ret, l)
finish (write f value rest) l =
    let (err, s) = write_int f value l.sysfs in finish (rest err) (record l { sysfs = s })
finish (write_blink f on off rest) l =
    let (err, s) = write_on_off f on off l.sysfs in finish (rest err) (record l { sysfs = s })
finish (read_led i rest) l = finish (rest (led_at l.leds i)) l
finish (read_cur_led rest) l = finish (rest l.cur_led) l
finish (store_on i on rest) l =
    finish rest (record l { leds = set l.leds i (record (led_at l.leds i) { on_ms = on }) })
finish (store_off i off rest) l =
    finish rest (record l { leds = set l.leds i (record (led_at l.leds i) { off_ms = off }) })
finish (store_color i color rest) l =
    finish rest (record l { leds = set l.leds i (record (led_at l.leds i) { color_rgb = color }) })
finish (store_cur_led cur rest) l = finish rest (record l { cur_led = cur })

-- How many accesses a call makes from a state.
pub accesses : Code → Lights → ℕ
accesses (done ret) l = 0
accesses (write f value rest) l =
    let (err, s) = write_int f value l.sysfs in suc (accesses (rest err) (record l { sysfs = s }))
accesses (write_blink f on off rest) l =
    let (err, s) = write_on_off f on off l.sysfs in
    suc (accesses (rest err) (record l { sysfs = s }))
accesses (read_led i rest) l = suc (accesses (rest (led_at l.leds i)) l)
accesses (read_cur_led rest) l = suc (accesses (rest l.cur_led) l)
accesses (store_on i on rest) l =
    suc (accesses rest (record l { leds = set l.leds i (record (led_at l.leds i) { on_ms = on }) }))
accesses (store_off i off rest) l =
    suc
      (accesses rest (record l { leds = set l.leds i (record (led_at l.leds i) { off_ms = off }) }))
accesses (store_color i color rest) l = suc (
    accesses rest
      (record l { leds = set l.leds i (record (led_at l.leds i) { color_rgb = color }) }))
accesses (store_cur_led cur rest) l = suc (accesses rest (record l { cur_led = cur }))
