-- ===== src/Lights/Driver.antt =====
-- What the LED's files hold when `write_leds_locked` of liblight/lights.c has written them.
use android_device_gionee_p.Common.{
  ℕ, ◌%◌, ◌^◌, ◌≡◌, refl, List, [], ◌∷◌, ◌++◌, Option, some, arith,
}
use android_device_gionee_p.Common.Int.{pos, IsInt32}
use android_device_gionee_p.Format.{Text}
use android_device_gionee_p.Sysfs.{
  File, lcd_file, red_led_file, green_led_file, blue_led_file, red_timeout_file, green_timeout_file,
  blue_timeout_file, rgb_locked_file, led_enable_file, Sysfs, newest,
}
use android_device_gionee_p.Sysfs.Writes.{IsUp, int_line, on_off_line}
use android_device_gionee_p.Sysfs.Appends.{
  Appends, write_int-Appends, write_on_off-Appends, pure-Appends, then-Appends,
}
use android_device_gionee_p.Lights.{LedConfig, write_config, red_of, green_of, blue_of}

-- The writes of one configuration, newest first.
abbrev pub config_writes : LedConfig → List (File × Text)
config_writes led =
    (rgb_locked_file, int_line (pos 1))
    ∷ (blue_timeout_file, on_off_line led.on_ms led.off_ms)
    ∷ (green_timeout_file, on_off_line led.on_ms led.off_ms)
    ∷ (red_timeout_file, on_off_line led.on_ms led.off_ms)
    ∷ (blue_led_file, int_line (pos (blue_of led.color_rgb)))
    ∷ (green_led_file, int_line (pos (green_of led.color_rgb)))
    ∷ (red_led_file, int_line (pos (red_of led.color_rgb)))
    ∷ (rgb_locked_file, int_line (pos 0))
    ∷ []

abbrev pub IsTimed : LedConfig → Type 0
IsTimed led = IsInt32 led.on_ms × IsInt32 led.off_ms

channel-IsInt32 : (n : ℕ) → IsInt32 (pos (n % 2 ^ 8))
channel-IsInt32 n = omega arith

pub write_config-Appends :
    (led : LedConfig) → IsTimed led → Appends (write_config led) (config_writes led)
unfolding write_config
write_config-Appends led (on, off) =
    then-Appends (write_int-Appends rgb_locked_file (pos 0) (omega arith)) (
      then-Appends (write_int-Appends red_led_file (pos (red_of led.color_rgb)) (omega arith)) (
        then-Appends (write_int-Appends green_led_file (pos (green_of led.color_rgb)) (omega arith))
          (then-Appends
            (write_int-Appends blue_led_file (pos (blue_of led.color_rgb)) (omega arith))
            (then-Appends (write_on_off-Appends red_timeout_file led.on_ms led.off_ms on off) (
              then-Appends (write_on_off-Appends green_timeout_file led.on_ms led.off_ms on off) (
                then-Appends (write_on_off-Appends blue_timeout_file led.on_ms led.off_ms on off) (
                  then-Appends (write_int-Appends rgb_locked_file (pos 1) (omega arith))
                    (pure-Appends (pos 0)))))))))

-- What the driver's files for the LED hold: the colors, the blinking, and whether they apply.
abbrev pub View : Type 0
View =
    Option Text × Option Text × Option Text × Option Text × Option Text × Option Text × Option Text

pub led_view : List (File × Text) → View
led_view w = (
  newest red_led_file w,
  newest green_led_file w,
  newest blue_led_file w,
  newest red_timeout_file w,
  newest green_timeout_file w,
  newest blue_timeout_file w,
  newest rgb_locked_file w,
)

-- The view of a configuration that is shown.
abbrev pub text_of : LedConfig → View
text_of led = (
  some (int_line (pos (red_of led.color_rgb))),
  some (int_line (pos (green_of led.color_rgb))),
  some (int_line (pos (blue_of led.color_rgb))),
  some (on_off_line led.on_ms led.off_ms),
  some (on_off_line led.on_ms led.off_ms),
  some (on_off_line led.on_ms led.off_ms),
  some (int_line (pos 1)),
)

view-config_writes :
    (led : LedConfig) (w : List (File × Text)) → led_view (config_writes led ++ w) ≡ text_of led
unfolding led_view newest
view-config_writes led w = refl

pub view-lcd : (t : Text) (w : List (File × Text)) → led_view ((lcd_file, t) ∷ w) ≡ led_view w
unfolding led_view newest
view-lcd t w = refl

pub view-buttons :
    (t : Text) (w : List (File × Text)) → led_view ((led_enable_file, t) ∷ w) ≡ led_view w
unfolding led_view newest
view-buttons t w = refl

-- Writing a configuration shows it.
pub write_config-shows :
    (led : LedConfig) (s : Sysfs)
    → IsUp s
    → IsTimed led
    → led_view (write_config led s).1.written ≡ text_of led
write_config-shows led s up timed =
    rw ((write_config-Appends led timed).written s up) (view-config_writes led s.written)
