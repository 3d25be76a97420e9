-- ===== src/Lights/Refines.antt =====
-- liblight/lights.c against what the framework asked for: each of the three lights that share
-- the LED has a last request, and the LED shows the request of the highest lit one.
use mathlib.Core.Path.{fun_ext}
use android_device_gionee_p.Common.{
  ℕ, ◌<◌, ◌≡◌, refl, ◌∙◌, ap, List, [], ◌∷◌, Option, none, some, length, length-set, set, arith,
  ◌==◌, ◌&&◌, if◌then◌else◌,
}
use android_device_gionee_p.Common.Int.{pos, ltb_ℤ, eqb_ℤ}
use android_device_gionee_p.Lights.{
  FlashMode, flash_none, flash_timed, flash_hardware, LightState, LedConfig, led_off, led_at, rgb,
  Lights, config_of, switch_to, show_slot, set_light_locked, Light, set_light, run,
  set_light_backlight, set_light_buttons, set_light_battery, set_light_notifications,
  set_light_attention, backlight, buttons, battery, notifications, attention, fix_attention,
}
use android_device_gionee_p.Lights.Slots.{led_at-set}

-- A request without blinking.
abbrev pub steady : ℕ → LedConfig
steady color = record { color_rgb = rgb color; on_ms = pos 0; off_ms = pos 0 }

abbrev pub blinking : LightState → LedConfig
blinking state = record {
  color_rgb = rgb state.color;
  on_ms = state.flash_on_ms;
  off_ms = state.flash_off_ms;
}

-- What a light asks the LED for, by its flash mode.
abbrev pub plain_request : FlashMode → LightState → LedConfig
plain_request flash_timed state = blinking state
plain_request flash_hardware state = blinking state
plain_request _ state = steady state.color

-- Attention without flashing means off, and a hardware flash that is never off is steady.
abbrev pub attention_request : FlashMode → LightState → LedConfig
attention_request flash_none state = led_off
attention_request flash_hardware state =
    if ltb_ℤ (pos 0) state.flash_on_ms && eqb_ℤ state.flash_off_ms (pos 0)
    then steady state.color
    else blinking state
attention_request mode state = plain_request mode state

-- The slot that a call asks for, with its configuration.
abbrev pub request : Light → LightState → Option (ℕ × LedConfig)
request battery state = some (0, plain_request state.flash_mode state)
request notifications state = some (1, plain_request state.flash_mode state)
request attention state = some (2, attention_request state.flash_mode state)
request _ state = none

abbrev pub update : (ℕ → LedConfig) → Option (ℕ × LedConfig) → ℕ → LedConfig
update wanted none i = wanted i
update wanted (some (k, led)) i = if k == i then led else wanted i

-- The last request of each slot, before any call and after some.
abbrev pub boot_wish : ℕ → LedConfig
boot_wish i = led_off

unfoldable pub wanted : List (Light × LightState) → (ℕ → LedConfig) → ℕ → LedConfig
wanted [] w = w
wanted ((light, state) ∷ calls) w = wanted calls (update w (request light state))

pub config_of-plain : (state : LightState) → config_of state ≡ plain_request state.flash_mode state
unfolding config_of
config_of-plain state = ground arith

pub config_of-attention :
    (state : LightState)
    → config_of (fix_attention state.flash_mode state) ≡ attention_request state.flash_mode state
unfolding config_of fix_attention
config_of-attention state = ground arith

leds-show_slot : (type : ℕ) (led : LedConfig) (l : Lights) → (show_slot type led l).1.leds ≡ l.leds
unfolding show_slot switch_to
leds-show_slot type led l = ground arith

-- Storing into a slot that exists.
leds-set_light_locked :
    (state : LightState) (type : ℕ) (l : Lights)
    → type < length l.leds
    → (set_light_locked state (pos type) l).1.leds ≡ set l.leds type (config_of state)
unfolding set_light_locked
leds-set_light_locked state type l h = ground (
  arith,
  leds-show_slot type (config_of state) (record l { leds = set l.leds type (config_of state) }),
)

stores :
    (l : Lights)
    → length l.leds ≡ 3
    → (type : ℕ) → type < 3
    → (state : LightState) (led : LedConfig) → config_of state ≡ led
    → (length (set_light_locked state (pos type) l).1.leds ≡ 3)
      × ((i : ℕ)
          → led_at (set_light_locked state (pos type) l).1.leds i
            ≡ (if type == i then led else led_at l.leds i))
stores l three type fits state led same = rw (leds-set_light_locked state type l (omega arith)) (
  length-set l.leds type (config_of state) ∙ three,
  λ i. led_at-set l.leds type i (config_of state) (omega arith) ∙ rw same,
)

-- A call that asks for no slot leaves them alone, and the others store what they ask for.
pub leds-set_light :
    (light : Light) (state : LightState) (l : Lights)
    → length l.leds ≡ 3
    → (length (set_light light state l).1.leds ≡ 3)
      × ((i : ℕ)
          → led_at (set_light light state l).1.leds i
            ≡ update (led_at l.leds) (request light state) i)
unfolding set_light_backlight set_light_buttons set_light_battery set_light_notifications
    set_light_attention
leds-set_light backlight state l three = (three, λ i. refl)
leds-set_light buttons state l three = (three, λ i. refl)
leds-set_light battery state l three =
    stores l three 0 (omega arith) state (plain_request state.flash_mode state)
      (config_of-plain state)
leds-set_light notifications state l three =
    stores l three 1 (omega arith) state (plain_request state.flash_mode state)
      (config_of-plain state)
leds-set_light attention state l three =
    stores l three 2 (omega arith) (fix_attention state.flash_mode state)
      (attention_request state.flash_mode state) (config_of-attention state)

pub leds-run :
    (calls : List (Light × LightState)) (l : Lights)
    → length l.leds ≡ 3
    → (i : ℕ) → led_at (run l calls).leds i ≡ wanted calls (led_at l.leds) i
unfolding run wanted
leds-run [] l three i = refl
leds-run ((light, state) ∷ calls) l three i =
    let (three', step) = leds-set_light light state l three in
    leds-run calls (set_light light state l).1 three' i
    ∙ ap (λ (w : ℕ → LedConfig). wanted calls w i) (fun_ext step)
