-- ===== src/Lights/Display.antt =====
-- The LED that the files show after the calls of liblight/lights.c, while the files can be written.
use android_device_gionee_p.Common.{
  ℕ, ◌≡◌, ◌⊎◌, inl, inr, refl, ◌∙◌, List, false, Option, none, some, length, set, arith, ltb, leb,
  ◌==◌, if◌then◌else◌, Bool-cases,
}
use android_device_gionee_p.Common.Int.{ℤ, pos, negsuc, IsInt32, leb_ℤ, eqb_ℤ}
use android_device_gionee_p.Sysfs.{Sysfs}
use android_device_gionee_p.Sysfs.Writes.{IsUp}
use android_device_gionee_p.Lights.{
  LightState, LedConfig, led_off, led_at, Lights, config_of, find_lit, switch_to, show_slot,
  write_config, write_leds_locked, set_light_locked,
}
use android_device_gionee_p.Lights.Slots.{led_at-set}
use android_device_gionee_p.Lights.Driver.{
  IsTimed, led_view, text_of, write_config-Appends, write_config-shows,
}

-- The configuration that `g_cur_led` names.
abbrev pub shown : List LedConfig → ℤ → LedConfig
shown leds (pos c) = led_at leds c
shown leds (negsuc k) = led_off

-- The LED's files show what `g_cur_led` names, or no call has lit the LED yet and they are as at
-- boot.
abbrev pub Shows : Sysfs → Lights → Type 0
Shows boot l =
    (led_view l.sysfs.written ≡ text_of (shown l.leds l.cur_led))
    ⊎ ((l.cur_led ≡ negsuc 0) × (led_view l.sysfs.written ≡ led_view boot.written))

pub record IsSound (boot : Sysfs) (l : Lights) : Type 0 where
  pub up : IsUp l.sysfs
  pub timed : (i : ℕ) → IsTimed (led_at l.leds i)
  pub shows : Shows boot l

-- Showing a configuration whose slot becomes the current one.
shows_config :
    (boot : Sysfs) (l : Lights) (led : LedConfig) (cur : ℤ)
    → IsUp l.sysfs
    → IsTimed led
    → ((i : ℕ) → IsTimed (led_at l.leds i))
    → shown l.leds cur ≡ led
    → IsSound boot (record l { cur_led = cur; sysfs = (write_config led l.sysfs).1 })
shows_config boot l led cur up fits timed same = record {
  up = (write_config-Appends led fits).up l.sysfs up;
  timed = timed;
  shows = inl (rw same (write_config-shows led l.sysfs up fits));
}

-- `l` is the state behind the store of `led` into slot `type` of `leds`.
module _ (boot : Sysfs) (leds : List LedConfig) (type : ℕ) (led : LedConfig) (l : Lights)
    (stored : (i : ℕ) → led_at l.leds i ≡ (if type == i then led else led_at leds i))
    (fits : IsTimed led) (up : IsUp l.sysfs) (timed : (i : ℕ) → IsTimed (led_at leds i)) where
  stored-IsTimed : (i : ℕ) → IsTimed (led_at l.leds i)
  stored-IsTimed i = elim (Bool-cases (type == i)) [
    | inl same ↦ rw (stored i) (rw same fits)
    | inr other ↦ rw (stored i) (rw other (timed i))
  ]

  stored_self : led_at l.leds type ≡ led
  stored_self = stored type ∙ ground arith

  -- Storing into one slot keeps what another slot shows.
  shown-other : (cur : ℤ) → eqb_ℤ (pos type) cur ≡ false → shown l.leds cur ≡ shown leds cur
  shown-other (pos c) other = rw (stored c) (ground arith)
  shown-other (negsuc k) other = refl

  unchanged :
      eqb_ℤ (pos type) l.cur_led ≡ false → Shows boot (record l { leds = leds }) → IsSound boot l
  unchanged other (inl view) = record {
    up = up;
    timed = stored-IsTimed;
    shows = inl (rw (shown-other l.cur_led other) view);
  }
  unchanged other (inr dark) = record { up = up; timed = stored-IsTimed; shows = inr dark }

  switch_to-IsSound : (found : Option ℕ) → IsSound boot (switch_to found l).1
  unfolding switch_to write_leds_locked
  switch_to-IsSound none =
      shows_config boot l led_off (negsuc 0) up (omega arith) stored-IsTimed refl
  switch_to-IsSound (some k) =
      shows_config boot l (led_at l.leds k) (pos k) up (stored-IsTimed k) stored-IsTimed refl

  show_slot-IsSound : Shows boot (record l { leds = leds }) → IsSound boot (show_slot type led l).1
  unfolding show_slot write_leds_locked
  show_slot-IsSound shows = elim (Bool-cases (ltb 0 led.color_rgb)) [
    | inl lit ↦ elim (Bool-cases (leb_ℤ l.cur_led (pos type))) [
      | inl below ↦
          rw (lit, below) (shows_config boot l led (pos type) up fits stored-IsTimed stored_self)
      | inr above ↦ rw (lit, above) (unchanged (ground arith) shows)
    ]
    | inr unlit ↦ elim (Bool-cases (eqb_ℤ (pos type) l.cur_led)) [
      | inl current ↦ rw (unlit, current) (switch_to-IsSound (find_lit l.leds type))
      | inr other ↦ rw (unlit, other) (unchanged other shows)
    ]
  ]

-- The flash times of a request are C `int`s.
abbrev pub IsRequest : LightState → Type 0
IsRequest state = IsInt32 state.flash_on_ms × IsInt32 state.flash_off_ms

pub config_of-IsTimed : (state : LightState) → IsRequest state → IsTimed (config_of state)
unfolding config_of
config_of-IsTimed state h = ground arith

pub set_light_locked-IsSound :
    (boot : Sysfs) (state : LightState) (type : ℤ) (l : Lights)
    → IsRequest state
    → IsSound boot l
    → IsSound boot (set_light_locked state type l).1
unfolding set_light_locked
set_light_locked-IsSound boot state (negsuc n) l request h = h
set_light_locked-IsSound boot state (pos type) l request h =
    elim (Bool-cases (leb (length l.leds) type)) [
      | inl out ↦ rw out h
      | inr fits ↦ rw fits (
          show_slot-IsSound boot l.leds type (config_of state)
            (record l { leds = set l.leds type (config_of state) })
            (λ i. led_at-set l.leds type i (config_of state) (ground arith))
            (config_of-IsTimed state request) h.up h.timed h.shows)
    ]
