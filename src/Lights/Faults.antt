-- ===== src/Lights/Faults.antt =====
-- What the calls of liblight/lights.c return and record when the kernel refuses a file.
use android_device_gionee_p.Common.{
  ℕ, ◌≡◌, refl, ◌∙◌, sym, List, [], ◌∷◌, ◌&&◌, length, set, Bool, arith, leb, if◌then◌else◌,
  Bool-cases, inl, inr, Option, none, some, ap,
}
use android_device_gionee_p.Common.Int.{ℤ, pos, negsuc, leb_ℤ, ltb_ℤ}
use android_device_gionee_p.Sysfs.{Sysfs}
use android_device_gionee_p.Sysfs.Writes.{IsQuiet, write_int-IsQuiet, write_on_off-IsQuiet}
use android_device_gionee_p.Lights.{
  LightState, LedConfig, led_at, Lights, init, config_of, find_lit, switch_to, show_slot,
  write_config, write_leds_locked, set_light_locked, Light, set_light, run, set_light_backlight,
  set_light_buttons, set_light_battery, set_light_notifications, set_light_attention, backlight,
  buttons, battery, notifications, attention, fix_attention,
}
use android_device_gionee_p.Lights.Priority.{Top, Top-unique, run-IsTop, init-IsTop}
use android_device_gionee_p.Lights.Slots.{color_at}
use android_device_gionee_p.Lights.Refines.{leds-run}

result-write_leds_locked : (led : LedConfig) (s : Sysfs) → (write_config led s).0 ≡ pos 0
unfolding write_config
result-write_leds_locked led s = refl

result-show_slot : (type : ℕ) (led : LedConfig) (l : Lights) → (show_slot type led l).0 ≡ pos 0
unfolding show_slot switch_to write_leds_locked write_config
result-show_slot type led l = ground arith

-- A slot number that `set_light_locked` accepts.
abbrev pub in_range : ℤ → Lights → Bool
in_range type l = leb_ℤ (pos 0) type && ltb_ℤ type (pos (length l.leds))

-- Whatever the kernel answers, a slot number in range is answered by 0, and any other by -EINVAL.
pub set_light_locked_result :
    (state : LightState) (type : ℤ) (l : Lights)
    → (set_light_locked state type l).0 ≡ (if in_range type l then pos 0 else negsuc 21)
unfolding set_light_locked
set_light_locked_result state (negsuc n) l = ground arith
set_light_locked_result state (pos type) l = ground (
  arith,
  result-show_slot type (config_of state) (record l { leds = set l.leds type (config_of state) }),
)

-- The highest lit slot depends on the slots only through their configurations.
Top-same :
    (leds leds' : List LedConfig) (cur : ℤ)
    → ((i : ℕ) → color_at leds i ≡ color_at leds' i)
    → Top leds cur
    → Top leds' cur
Top-same leds leds' (pos c) same (lit, others) =
    (omega (arith, same c, lit), λ i. omega (arith, same i, others i))
Top-same leds leds' (negsuc k) same (none_lit, others) =
    (none_lit, λ i. omega (arith, same i, others i))

-- The slots and the current slot after any calls do not depend on the kernel's answers.
pub run_answers_irrelevant :
    (calls : List (Light × LightState)) (boot boot' : Sysfs)
    → ((run (init boot) calls).cur_led ≡ (run (init boot') calls).cur_led)
      × ((i : ℕ) → led_at (run (init boot) calls).leds i ≡ led_at (run (init boot') calls).leds i)
run_answers_irrelevant calls boot boot' =
    let l = run (init boot) calls in
    let l' = run (init boot') calls in
    let same : (i : ℕ) → led_at l.leds i ≡ led_at l'.leds i =
      λ i. leds-run calls (init boot) refl i ∙ sym (leds-run calls (init boot') refl i) in
    (
      Top-unique l'.leds l.cur_led l'.cur_led
          (Top-same l.leds l'.leds l.cur_led (λ i. ap (λ (led : LedConfig). led.color_rgb) (same i))
            (run-IsTop calls (init boot) (init-IsTop boot)))
          (run-IsTop calls (init boot') (init-IsTop boot')),
      same,
    )

write_config-IsQuiet : (led : LedConfig) (s : Sysfs) → IsQuiet s → IsQuiet (write_config led s).1
unfolding write_config
write_config-IsQuiet led s h = search (h, write_int-IsQuiet, write_on_off-IsQuiet) depth 12

switch_to-IsQuiet :
    (found : Option ℕ) (l : Lights) → IsQuiet l.sysfs → IsQuiet (switch_to found l).1.sysfs
unfolding switch_to write_leds_locked
switch_to-IsQuiet none l h = write_config-IsQuiet _ l.sysfs h
switch_to-IsQuiet (some k) l h = write_config-IsQuiet (led_at l.leds k) l.sysfs h

show_slot-IsQuiet :
    (type : ℕ) (led : LedConfig) (l : Lights)
    → IsQuiet l.sysfs
    → IsQuiet (show_slot type led l).1.sysfs
unfolding show_slot write_leds_locked
show_slot-IsQuiet type led l h =
    ground (arith, write_config-IsQuiet led l.sysfs h, switch_to-IsQuiet (find_lit l.leds type) l h)

set_light_locked-IsQuiet :
    (state : LightState) (type : ℤ) (l : Lights)
    → IsQuiet l.sysfs
    → IsQuiet (set_light_locked state type l).1.sysfs
unfolding set_light_locked
set_light_locked-IsQuiet state (negsuc n) l h = h
set_light_locked-IsQuiet state (pos type) l h = elim (Bool-cases (leb (length l.leds) type)) [
  | inl out ↦ rw out h
  | inr fits ↦ rw fits (
      show_slot-IsQuiet type (config_of state)
        (record l { leds = set l.leds type (config_of state) }) h)
]

set_light-IsQuiet :
    (light : Light) (state : LightState) (l : Lights)
    → IsQuiet l.sysfs
    → IsQuiet (set_light light state l).1.sysfs
unfolding set_light_backlight set_light_buttons set_light_battery set_light_notifications
    set_light_attention
set_light-IsQuiet backlight state l h = write_int-IsQuiet _ _ l.sysfs h
set_light-IsQuiet buttons state l h = write_int-IsQuiet _ _ l.sysfs h
set_light-IsQuiet battery state l h = set_light_locked-IsQuiet state (pos 0) l h
set_light-IsQuiet notifications state l h = set_light_locked-IsQuiet state (pos 1) l h
set_light-IsQuiet attention state l h =
    set_light_locked-IsQuiet (fix_attention state.flash_mode state) (pos 2) l h

-- Through any calls and any answers of the kernel, if the log holds at most one line for each set
-- flag of the two writers, it still does, so it never holds more than two.
pub run-IsQuiet :
    (calls : List (Light × LightState)) (l : Lights) → IsQuiet l.sysfs → IsQuiet (run l calls).sysfs
unfolding run
run-IsQuiet [] l h = h
run-IsQuiet ((light, state) ∷ calls) l h =
    run-IsQuiet calls (set_light light state l).1 (set_light-IsQuiet light state l h)
