-- ===== src/Lights/Code/Whole.antt =====
-- A call of liblight/lights.c access by access, against the call as one step.
use android_device_gionee_p.Common.{
  Option, none, ℕ, zero, suc, Bool, ◌<◌, ◌≡◌, refl, ◌∙◌, ap, ap₂, List, [], ◌∷◌, some, ltb, leb,
  if◌then◌else◌, set, length, arith, true, false,
}
use android_device_gionee_p.Common.Int.{ℤ, pos, negsuc, leb_ℤ, eqb_ℤ}
use android_device_gionee_p.Lights.{
  LightState, LedConfig, Lights, led_at, fix_attention, Light, backlight, notifications, attention,
  battery, buttons, set_light, set_light_locked, show_slot, switch_to, find_lit, config_of,
  write_config, write_leds_locked, set_light_backlight, set_light_buttons, set_light_battery,
  set_light_notifications, set_light_attention,
}
use android_device_gionee_p.Lights.Slots.{led_at-set}
use android_device_gionee_p.Lights.Code.{
  Code, done, write, write_blink, read_led, read_cur_led, store_on, store_off, store_color,
  store_cur_led, chosen, leds_code, switch_code, show_code, slot_code, call_code, advance, finish,
  IsPending,
}

-- An access changes nothing of what the whole call does.
pub finish-advance : (c : Code) (l : Lights) → finish (advance c l).0 (advance c l).1 ≡ finish c l
unfolding finish advance
finish-advance (done ret) l = refl
finish-advance (write f value rest) l = refl
finish-advance (write_blink f on off rest) l = refl
finish-advance (read_led i rest) l = refl
finish-advance (read_cur_led rest) l = refl
finish-advance (store_on i on rest) l = refl
finish-advance (store_off i off rest) l = refl
finish-advance (store_color i color rest) l = refl
finish-advance (store_cur_led cur rest) l = refl

-- A finished call changes nothing more.
pub finished : (c : Code) (l : Lights) → (IsPending c → ⊥) → (finish c l).1 ≡ l
unfolding finish
finished (done ret) l h = refl
finished (write f value rest) l h = absurd (h tt)
finished (write_blink f on off rest) l h = absurd (h tt)
finished (read_led i rest) l h = absurd (h tt)
finished (read_cur_led rest) l h = absurd (h tt)
finished (store_on i on rest) l h = absurd (h tt)
finished (store_off i off rest) l h = absurd (h tt)
finished (store_color i color rest) l h = absurd (h tt)
finished (store_cur_led cur rest) l h = absurd (h tt)

finish-leds_code :
    (led : Option ℕ) (rest : Code) (l : Lights)
    → finish (leds_code led rest) l
      ≡ finish rest (record l { sysfs = (write_config (chosen led l.leds) l.sysfs).1 })
unfolding finish leds_code write_config
finish-leds_code none rest l = refl
finish-leds_code (some i) rest l = refl

-- A configuration is written, and then the LED is the shown one.
finish-leds_cur :
    (led : Option ℕ) (cur : ℤ) (l : Lights)
    → (finish (leds_code led (store_cur_led cur (done (pos 0)))) l).1
      ≡ record l { cur_led = cur; sysfs = (write_config (chosen led l.leds) l.sysfs).1 }
unfolding finish
finish-leds_cur led cur l =
    ap (λ (r : ℤ × Lights). r.1) (finish-leds_code led (store_cur_led cur (done (pos 0))) l)

switch_branch :
    (lit : Bool) (i : ℕ) (l : Lights)
    → (finish (switch_code i) l).1 ≡ (switch_to (find_lit l.leds i) l).1
    → (finish
        (if lit then leds_code (some i) (store_cur_led (pos i) (done (pos 0))) else switch_code i)
        l).1
      ≡ (switch_to (if lit then some i else find_lit l.leds i) l).1
unfolding switch_to write_leds_locked
switch_branch true i l rest = finish-leds_cur (some i) (pos i) l
switch_branch false i l rest = rest

finish-switch_code :
    (n : ℕ) (l : Lights) → (finish (switch_code n) l).1 ≡ (switch_to (find_lit l.leds n) l).1
unfolding finish switch_code switch_to find_lit write_leds_locked
finish-switch_code zero l = finish-leds_cur none (negsuc 0) l
finish-switch_code (suc i) l =
    switch_branch (ltb 0 (led_at l.leds i).color_rgb) i l (finish-switch_code i l)

show_branch :
    (lit top shown : Bool) (type : ℕ) (l : Lights)
    → (finish
        (if lit
          then if top
            then leds_code (some type) (store_cur_led (pos type) (done (pos 0)))
            else done (pos 0)
          else if shown
          then switch_code type
          else done (pos 0))
        l).1
      ≡ (if lit
          then if top
            then (let (err, s) = write_leds_locked (some (led_at l.leds type)) l.sysfs in
                (err, record l { cur_led = pos type; sysfs = s }))
            else (pos 0, l)
          else if shown
          then switch_to (find_lit l.leds type) l
          else (pos 0, l)).1
unfolding finish write_leds_locked
show_branch true true shown type l = finish-leds_cur (some type) (pos type) l
show_branch true false shown type l = refl
show_branch false top true type l = finish-switch_code type l
show_branch false top false type l = refl

finish-show_code :
    (type : ℕ) (l : Lights)
    → (finish (show_code type) l).1 ≡ (show_slot type (led_at l.leds type) l).1
unfolding finish show_code show_slot
finish-show_code type l =
    show_branch (ltb 0 (led_at l.leds type).color_rgb) (leb_ℤ l.cur_led (pos type))
      (eqb_ℤ (pos type) l.cur_led) type l

-- The three stores into a slot.
abbrev pub stored : List LedConfig → ℕ → LedConfig → List LedConfig
stored leds i led =
    let on = set leds i (record (led_at leds i) { on_ms = led.on_ms }) in
    let timed = set on i (record (led_at on i) { off_ms = led.off_ms }) in
    set timed i (record (led_at timed i) { color_rgb = led.color_rgb })

pub stored-set :
    (leds : List LedConfig) (i : ℕ) (led : LedConfig) → stored leds i led ≡ set leds i led
stored-set [] i led = refl
stored-set (x ∷ xs) zero led = refl
stored-set (x ∷ xs) (suc i) led = ap (λ rest. x ∷ rest) (stored-set xs i led)

led_at-set_self :
    (leds : List LedConfig) (i : ℕ) (led : LedConfig)
    → i < length leds
    → led_at (set leds i led) i ≡ led
led_at-set_self leds i led h = rw (led_at-set leds i i led h) (ground arith)

-- Three slots.
abbrev pub HasSlots : Lights → Type 0
HasSlots l = length l.leds ≡ 3

finish-slot_code :
    (state : LightState) (type : ℕ) (l : Lights)
    → type < 3
    → HasSlots l
    → (finish (slot_code state type) l).1 ≡ (set_light_locked state (pos type) l).1
unfolding finish slot_code set_light_locked config_of
finish-slot_code state type l h slots =
    rw (let e : leb (length l.leds) type ≡ false = ground arith in e) (
      finish-show_code type (record l { leds = stored l.leds type (config_of state) })
      ∙ ap₂
          (λ (led : LedConfig) (leds : List LedConfig).
            (show_slot type led (record l { leds = leds })).1)
          (ap (λ (leds : List LedConfig). led_at leds type)
              (stored-set l.leds type (config_of state))
            ∙ led_at-set_self l.leds type (config_of state) (omega (arith, slots)))
          (stored-set l.leds type (config_of state)))

-- A call access by access leaves the state that the call as one step leaves.
pub finish-call_code :
    (light : Light) (state : LightState) (l : Lights)
    → HasSlots l
    → (finish (call_code light state) l).1 ≡ (set_light light state l).1
unfolding finish call_code set_light_backlight set_light_buttons set_light_battery
    set_light_notifications set_light_attention
finish-call_code backlight state l slots = refl
finish-call_code buttons state l slots = refl
finish-call_code battery state l slots = finish-slot_code state 0 l (omega arith) slots
finish-call_code notifications state l slots = finish-slot_code state 1 l (omega arith) slots
finish-call_code attention state l slots =
    finish-slot_code (fix_attention state.flash_mode state) 2 l (omega arith) slots
