-- ===== src/Lights/Code/Visible.antt =====
-- Every call of liblight/lights.c, access by access: what the LED's files show in the middle of it.
use android_device_gionee_p.Common.{
  ℕ, zero, suc, ◌<◌, ◌≡◌, refl, sym, ◌∙◌, subst, List, ◌∷◌, Bool, true, false, Option, none, some,
  ltb, length, ◌==◌, if◌then◌else◌, arith,
}
use android_device_gionee_p.Common.Int.{ℤ, pos, negsuc, leb_ℤ, eqb_ℤ, IsInt32}
use android_device_gionee_p.Format.{Text}
use android_device_gionee_p.Sysfs.{
  File, lcd_file, rgb_locked_file, led_enable_file, newest, write_int,
}
use android_device_gionee_p.Sysfs.Writes.{IsUp, int_line}
use android_device_gionee_p.Sysfs.Appends.{write_int-Appends}
use android_device_gionee_p.Lights.{
  LightState, LedConfig, led_off, led_at, Lights, config_of, Light, backlight, notifications,
  attention, battery, buttons, fix_attention, rgb_to_brightness,
}
use android_device_gionee_p.Lights.Slots.{led_at-set}
use android_device_gionee_p.Lights.Brightness.{brightness-IsInt32}
use android_device_gionee_p.Lights.Driver.{IsTimed, led_view, view-lcd, view-buttons}
use android_device_gionee_p.Lights.Display.{IsRequest, config_of-IsTimed}
use android_device_gionee_p.Lights.Shown.{fix_attention-IsRequest}
use android_device_gionee_p.Lights.Refines.{request, config_of-plain, config_of-attention}
use android_device_gionee_p.Lights.Code.{
  chosen, Code, done, store_cur_led, leds_code, switch_code, show_code, slot_code, call_code,
  advance,
}
use android_device_gionee_p.Lights.Code.Whole.{HasSlots, stored, stored-set}
use android_device_gionee_p.Lights.Code.Along.{Along, IsWhole, IsWholeIn, leds_code-Along}

-- The configuration that a call asks for.
abbrev pub IsAskedBy : Option (ℕ × LedConfig) → LedConfig → Type 0
IsAskedBy none led = ⊥
IsAskedBy (some (k, asked)) led = led ≡ asked

lock-lcd :
    (t : Text) (w : List (File × Text))
    → newest rgb_locked_file ((lcd_file, t) ∷ w) ≡ newest rgb_locked_file w
unfolding newest
lock-lcd t w = refl

lock-buttons :
    (t : Text) (w : List (File × Text))
    → newest rgb_locked_file ((led_enable_file, t) ∷ w) ≡ newest rgb_locked_file w
unfolding newest
lock-buttons t w = refl

module _ (boot : List (File × Text)) (Allowed : LedConfig → Type 0) where
  leds_cur-Along :
      (led : Option ℕ) (cur : ℤ) (l : Lights)
      → IsUp l.sysfs
      → IsTimed (chosen led l.leds)
      → Allowed (chosen led l.leds)
      → IsWhole boot Allowed l
      → Along (IsWhole boot Allowed) (leds_code led (store_cur_led cur (done (pos 0)))) l
  unfolding Along
  leds_cur-Along led cur l up timed allowed whole =
      leds_code-Along boot Allowed led (store_cur_led cur (done (pos 0))) l up timed allowed whole
        (λ w. (w, w))

  if-Along :
      (b : Bool) (c e : Code) (l : Lights)
      → Along (IsWhole boot Allowed) c l
      → Along (IsWhole boot Allowed) e l
      → Along (IsWhole boot Allowed) (if b then c else e) l
  if-Along true c e l h k = h
  if-Along false c e l h k = k

  -- What every slot holds may be shown.
  abbrev pub SlotsFit : Lights → Type 0
  SlotsFit l = (i : ℕ) → Allowed (led_at l.leds i) × IsTimed (led_at l.leds i)

  module _ (off : Allowed led_off) where
    switch_code-Along :
        (n : ℕ) (l : Lights)
        → IsUp l.sysfs
        → SlotsFit l
        → IsWhole boot Allowed l
        → Along (IsWhole boot Allowed) (switch_code n) l
    unfolding Along switch_code
    switch_code-Along zero l up fit whole =
        leds_cur-Along none (negsuc 0) l up (omega arith) off whole
    switch_code-Along (suc i) l up fit whole = (
      whole,
      if-Along (ltb 0 (led_at l.leds i).color_rgb)
          (leds_code (some i) (store_cur_led (pos i) (done (pos 0)))) (switch_code i) l
          (leds_cur-Along (some i) (pos i) l up (fit i).1 (fit i).0 whole)
          (switch_code-Along i l up fit whole),
    )

    show_code-Along :
        (type : ℕ) (l : Lights)
        → IsUp l.sysfs
        → SlotsFit l
        → IsWhole boot Allowed l
        → Along (IsWhole boot Allowed) (show_code type) l
    unfolding Along show_code
    show_code-Along type l up fit whole =
        let led = led_at l.leds type in
        (
          whole,
          (
            whole,
            if-Along (ltb 0 led.color_rgb) _ _ l
                (if-Along (leb_ℤ l.cur_led (pos type)) _ (done (pos 0)) l
                  (leds_cur-Along (some type) (pos type) l up (fit type).1 (fit type).0 whole)
                  whole)
                (if-Along (eqb_ℤ (pos type) l.cur_led) (switch_code type) (done (pos 0)) l
                  (switch_code-Along type l up fit whole) whole),
          ),
        )

    either-fits :
        (b : Bool) (led other : LedConfig)
        → Allowed led × IsTimed led
        → Allowed other × IsTimed other
        → Allowed (if b then led else other) × IsTimed (if b then led else other)
    either-fits true led other h k = h
    either-fits false led other h k = k

    stored-SlotsFit :
        (l : Lights) (type : ℕ) (led : LedConfig)
        → type < length l.leds
        → Allowed led
        → IsTimed led
        → SlotsFit l
        → SlotsFit (record l { leds = stored l.leds type led })
    stored-SlotsFit l type led h allowed timed fit i = rw (stored-set l.leds type led) (
        rw (led_at-set l.leds type i led h)
          (either-fits (type == i) led (led_at l.leds i) (allowed, timed) (fit i)))

    slot_code-Along :
        (state : LightState) (type : ℕ) (l : Lights)
        → type < length l.leds
        → IsUp l.sysfs
        → Allowed (config_of state)
        → IsTimed (config_of state)
        → SlotsFit l
        → IsWhole boot Allowed l
        → Along (IsWhole boot Allowed) (slot_code state type) l
    unfolding Along slot_code config_of advance
    slot_code-Along state type l h up allowed timed fit whole = (
      whole,
      (
        whole,
        (
          whole,
          show_code-Along type (record l { leds = stored l.leds type (config_of state) }) up
              (stored-SlotsFit l type (config_of state) h allowed timed fit) whole,
        ),
      ),
    )

    -- A write into a file of another light.
    apart-IsWhole :
        (f : File) (value : ℤ) (l : Lights)
        → IsInt32 value
        → IsUp l.sysfs
        → ((w : List (File × Text)) → led_view ((f, int_line value) ∷ w) ≡ led_view w)
        → ((w : List (File × Text))
            → newest rgb_locked_file ((f, int_line value) ∷ w) ≡ newest rgb_locked_file w)
        → IsWhole boot Allowed l
        → IsWhole boot Allowed (record l { sysfs = (write_int f value l.sysfs).1 })
    apart-IsWhole f value l fits up apart other whole =
        subst (IsWholeIn boot Allowed) (sym ((write_int-Appends f value fits).written l.sysfs up))
          (λ lit. rw (apart l.sysfs.written) (whole (sym (other l.sysfs.written) ∙ lit)))

    pub call_code-Along :
        (light : Light) (state : LightState) (l : Lights)
        → IsUp l.sysfs
        → HasSlots l
        → IsRequest state
        → ((led : LedConfig) → IsAskedBy (request light state) led → Allowed led)
        → SlotsFit l
        → IsWhole boot Allowed l
        → Along (IsWhole boot Allowed) (call_code light state) l
    unfolding Along call_code
    call_code-Along backlight state l up slots timed asked fit whole = (
      whole,
      apart-IsWhole lcd_file (pos (rgb_to_brightness state)) l (brightness-IsInt32 state) up
          (view-lcd _) (lock-lcd _) whole,
    )
    call_code-Along buttons state l up slots timed asked fit whole = (
      whole,
      apart-IsWhole led_enable_file (pos (rgb_to_brightness state)) l (brightness-IsInt32 state) up
          (view-buttons _) (lock-buttons _) whole,
    )
    call_code-Along battery state l up slots timed asked fit whole =
        slot_code-Along state 0 l (omega arith) up (asked (config_of state) (config_of-plain state))
          (config_of-IsTimed state timed) fit whole
    call_code-Along notifications state l up slots timed asked fit whole =
        slot_code-Along state 1 l (omega arith) up (asked (config_of state) (config_of-plain state))
          (config_of-IsTimed state timed) fit whole
    call_code-Along attention state l up slots timed asked fit whole =
        let fixed = fix_attention state.flash_mode state in
        slot_code-Along fixed 2 l (omega arith) up
          (asked (config_of fixed) (config_of-attention state))
          (config_of-IsTimed fixed (fix_attention-IsRequest state.flash_mode state timed)) fit whole
