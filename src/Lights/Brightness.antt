-- ===== src/Lights/Brightness.antt =====
-- `rgb_to_brightness` of liblight/lights.c, and the two lights that show a brightness.
use android_device_gionee_p.Common.{
  subst, ℕ, ◌+◌, ◌*◌, ◌^◌, ◌<◌, ◌≤◌, ◌/◌, ◌≡◌, refl, some, if◌then◌else◌, ◌==◌, arith,
}
use android_device_gionee_p.Common.Int.{ℤ, pos, IsInt32}
use android_device_gionee_p.Sysfs.{
  File, lcd_file, led_enable_file, index, writes, content, write_int,
}
use android_device_gionee_p.Sysfs.Writes.{int_line, content-write_int}
use android_device_gionee_p.Lights.{
  LightState, Lights, rgb, red_of, green_of, blue_of, rgb_to_brightness, set_light_backlight,
  set_light_buttons, on_sysfs,
}

-- A color packed from alpha, red, green and blue.
abbrev pub argb : ℕ → ℕ → ℕ → ℕ → ℕ
argb a r g b = a * 2 ^ 24 + r * 2 ^ 16 + g * 2 ^ 8 + b

-- Masking a color with 0x00ffffff keeps its three channels.
rgb_channels :
    (c : ℕ)
    → (red_of (rgb c) ≡ red_of c) × (green_of (rgb c) ≡ green_of c) × (blue_of (rgb c) ≡ blue_of c)
rgb_channels c = (omega arith, omega arith, omega arith)

module _ (a r g b : ℕ) (hr : r < 2 ^ 8) (hg : g < 2 ^ 8) (hb : b < 2 ^ 8) where
  red_of-argb : red_of (argb a r g b) ≡ r
  red_of-argb = omega arith

  green_of-argb : green_of (argb a r g b) ≡ g
  green_of-argb = omega arith

  blue_of-argb : blue_of (argb a r g b) ≡ b
  blue_of-argb = omega arith

-- The brightness of a packed color, whatever the alpha.
brightness_of :
    (state : LightState) (a r g b : ℕ)
    → state.color ≡ argb a r g b
    → r < 2 ^ 8
    → g < 2 ^ 8
    → b < 2 ^ 8
    → rgb_to_brightness state ≡ (77 * r + 150 * g + 29 * b) / 2 ^ 8
unfolding rgb_to_brightness
brightness_of state a r g b color hr hg hb =
    let (cr, cg, cb) = rgb_channels (argb a r g b) in
    rw color (
      rw (cr, cg, cb)
        (rw
          (
            red_of-argb a r g b hr hg hb,
            green_of-argb a r g b hr hg hb,
            blue_of-argb a r g b hr hg hb,
          )
          refl))

rgb_to_brightness-le : (state : LightState) → rgb_to_brightness state ≤ 255
unfolding rgb_to_brightness
rgb_to_brightness-le state = omega arith

pub brightness-IsInt32 : (state : LightState) → IsInt32 (pos (rgb_to_brightness state))
brightness-IsInt32 state = omega (arith, rgb_to_brightness-le state)

-- A backlight or button light: what the file holds afterwards, and what stays as it was.
abbrev pub Sets : ℕ → Lights → File → ℤ × Lights → Type 0
Sets brightness l f (result, l') =
    (result ≡ pos 0)
    × ((g : File)
        → content l'.sysfs g
          ≡ (if index f == index g then some (int_line (pos brightness)) else content l.sysfs g))
    × (l'.leds ≡ l.leds)
    × (l'.cur_led ≡ l.cur_led)

module _ (state : LightState) (l : Lights) where
  result-write_int :
      (f : File) (value : ℤ)
      → l.sysfs.answer l.sysfs.attempts ≡ writes
      → (write_int f value l.sysfs).0 ≡ pos 0
  unfolding write_int
  result-write_int f value up = ground arith

  write_int-Sets :
      (f : File)
      → l.sysfs.answer l.sysfs.attempts ≡ writes
      → Sets
          (rgb_to_brightness state)
          l
          f
          (on_sysfs (write_int f (pos (rgb_to_brightness state))) l)
  write_int-Sets f up = (
    result-write_int f _ up,
    content-write_int f (pos (rgb_to_brightness state)) l.sysfs up (brightness-IsInt32 state),
    refl,
    refl,
  )

  -- For a color packed from any alpha and from red, green and blue below 256, when the file can be
  -- written: the backlight's file, and of the buttons' call the buttons' file, holds the decimal
  -- line of 77 times the red, 150 times the green and 29 times the blue, all divided by 256; the
  -- call returns 0, and no other file and no LED changes.
  pub set_light_backlight_lem :
      (a r g b : ℕ)
      → state.color ≡ argb a r g b
      → r < 2 ^ 8
      → g < 2 ^ 8
      → b < 2 ^ 8
      → l.sysfs.answer l.sysfs.attempts ≡ writes
      → let brightness = (77 * r + 150 * g + 29 * b) / 2 ^ 8 in
        Sets brightness l lcd_file (set_light_backlight state l)
        × Sets brightness l led_enable_file (set_light_buttons state l)
  unfolding set_light_backlight set_light_buttons
  set_light_backlight_lem a r g b color hr hg hb up =
      let same = brightness_of state a r g b color hr hg hb in
      let holds : (f : File) → Type 0 = λ f.
        Sets ((77 * r + 150 * g + 29 * b) / 2 ^ 8) l f
          (on_sysfs (write_int f (pos (rgb_to_brightness state))) l) in
      let shown : (f : File) → holds f = λ f.
        subst (λ (n : ℕ). Sets n l f (on_sysfs (write_int f (pos (rgb_to_brightness state))) l))
          same (write_int-Sets f up) in
      (shown lcd_file, shown led_enable_file)

  abbrev pub Untouched : Lights → Type 0
  Untouched l' =
      (l'.sysfs.written ≡ l.sysfs.written) × (l'.leds ≡ l.leds) × (l'.cur_led ≡ l.cur_led)
