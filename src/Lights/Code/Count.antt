-- ===== src/Lights/Code/Count.antt =====
-- How many accesses a call of liblight/lights.c makes.
use android_device_gionee_p.Common.{
  Option, none, some, ℕ, zero, suc, Bool, ◌+◌, ◌≤◌, ◌≡◌, refl, ltb, if◌then◌else◌, arith, true,
  false,
}
use android_device_gionee_p.Common.Int.{ℤ, pos, negsuc, leb_ℤ, eqb_ℤ}
use android_device_gionee_p.Lights.{
  LightState, Lights, led_at, fix_attention, Light, backlight, notifications, attention, battery,
  buttons, write_config,
}
use android_device_gionee_p.Lights.Code.{
  Code, done, write, write_blink, read_led, read_cur_led, store_on, store_off, store_color,
  store_cur_led, chosen, leds_code, switch_code, show_code, slot_code, call_code, advance, accesses,
  IsPending,
}

-- Every access leaves one access less.
pub accesses-advance :
    (c : Code) (l : Lights)
    → IsPending c
    → accesses c l ≡ suc (accesses (advance c l).0 (advance c l).1)
unfolding accesses advance
accesses-advance (done ret) l h = absurd h
accesses-advance (write f value rest) l h = refl
accesses-advance (write_blink f on off rest) l h = refl
accesses-advance (read_led i rest) l h = refl
accesses-advance (read_cur_led rest) l h = refl
accesses-advance (store_on i on rest) l h = refl
accesses-advance (store_off i off rest) l h = refl
accesses-advance (store_color i color rest) l h = refl
accesses-advance (store_cur_led cur rest) l h = refl

accesses-leds_code :
    (led : Option ℕ) (rest : Code) (l : Lights)
    → accesses (leds_code led rest) l
      ≤ 17 + accesses rest (record l { sysfs = (write_config (chosen led l.leds) l.sysfs).1 })
unfolding accesses leds_code write_config
accesses-leds_code none rest l = omega arith
accesses-leds_code (some i) rest l = omega arith

accesses-leds_cur :
    (led : Option ℕ) (cur : ℤ) (l : Lights)
    → accesses (leds_code led (store_cur_led cur (done (pos 0)))) l ≤ 18
unfolding accesses
accesses-leds_cur led cur l =
    omega (arith, accesses-leds_code led (store_cur_led cur (done (pos 0))) l)

accesses-if :
    (b : Bool) (c e : Code) (l : Lights) (n : ℕ)
    → accesses c l ≤ n
    → accesses e l ≤ n
    → accesses (if b then c else e) l ≤ n
accesses-if true c e l n h k = h
accesses-if false c e l n h k = k

accesses-switch_code : (n : ℕ) (l : Lights) → accesses (switch_code n) l ≤ n + 18
unfolding accesses switch_code
accesses-switch_code zero l = omega (arith, accesses-leds_cur none (negsuc 0) l)
accesses-switch_code (suc i) l =
    let branch =
      accesses-if (ltb 0 (led_at l.leds i).color_rgb)
        (leds_code (some i) (store_cur_led (pos i) (done (pos 0)))) (switch_code i) l (i + 18)
        (omega (arith, accesses-leds_cur (some i) (pos i) l)) (accesses-switch_code i l) in
    omega arith

accesses-show_code : (type : ℕ) (l : Lights) → accesses (show_code type) l ≤ type + 20
unfolding accesses show_code
accesses-show_code type l =
    let led = led_at l.leds type in
    let shows = leds_code (some type) (store_cur_led (pos type) (done (pos 0))) in
    let lit =
      accesses-if (leb_ℤ l.cur_led (pos type)) shows (done (pos 0)) l (type + 18)
        (omega (arith, accesses-leds_cur (some type) (pos type) l)) (omega arith) in
    let dark =
      accesses-if (eqb_ℤ (pos type) l.cur_led) (switch_code type) (done (pos 0)) l (type + 18)
        (accesses-switch_code type l) (omega arith) in
    let both = accesses-if (ltb 0 led.color_rgb) _ _ l (type + 18) lit dark in omega arith

-- The most that any call makes.
abbrev pub most_accesses : ℕ
most_accesses = 25

accesses-slot_code :
    (state : LightState) (type : ℕ) (l : Lights) → accesses (slot_code state type) l ≤ type + 23
unfolding accesses slot_code
accesses-slot_code state type l = omega (arith, accesses-show_code type _)

pub accesses-call_code :
    (light : Light) (state : LightState) (l : Lights)
    → accesses (call_code light state) l ≤ most_accesses
unfolding accesses call_code
accesses-call_code backlight state l = omega arith
accesses-call_code buttons state l = omega arith
accesses-call_code battery state l = omega (arith, accesses-slot_code state 0 l)
accesses-call_code notifications state l = omega (arith, accesses-slot_code state 1 l)
accesses-call_code attention state l =
    omega (arith, accesses-slot_code (fix_attention state.flash_mode state) 2 l)
