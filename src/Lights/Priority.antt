-- ===== src/Lights/Priority.antt =====
-- Which of the lights that share the LED in liblight/lights.c is shown: `g_cur_led` against
-- `g_leds`. The kernel's answers play no part.
use mathlib.Core.Path.{subst}
use android_device_gionee_p.Common.{
  ℕ, zero, suc, ◌<◌, ◌≤◌, ◌≡◌, ◌⊎◌, inl, inr, refl, ◌∙◌, ap, sym, List, [], ◌∷◌, false, Option,
  none, some, length, set, arith, ltb, leb, ◌==◌, if◌then◌else◌, Bool-cases, ltb→lt,
}
use android_device_gionee_p.Common.Int.{ℤ, pos, negsuc, ◌≤ℤ◌, ◌<ℤ◌, leb_ℤ, eqb_ℤ, eq_of_parts}
use android_device_gionee_p.Sysfs.{Sysfs}
use android_device_gionee_p.Lights.{
  LightState, LedConfig, Lights, init, config_of, find_lit, switch_to, show_slot, set_light_locked,
  Light, set_light, run, set_light_backlight, set_light_buttons, set_light_battery,
  set_light_notifications, set_light_attention, backlight, buttons, battery, notifications,
  attention, fix_attention,
}
use android_device_gionee_p.Lights.Slots.{color_at, led_at-set, Found, find_lit-Found}

-- The lit slot of the highest number, or -1 where no slot is lit.
abbrev pub Top : List LedConfig → ℤ → Type 0
Top leds (pos c) = (0 < color_at leds c) × ((i : ℕ) → (i ≤ c) ⊎ (color_at leds i ≡ 0))
Top leds (negsuc k) = (k ≡ 0) × ((i : ℕ) → color_at leds i ≡ 0)

abbrev pub IsTop : Lights → Type 0
IsTop l = Top l.leds l.cur_led

-- One slot of `leds` was given anew.
module _ (leds leds' : List LedConfig) (type : ℕ) (led : LedConfig)
    (stored : (i : ℕ)
      → color_at leds' i ≡ (if type == i then led.color_rgb else color_at leds i)) where
  Top-lit : (cur : ℤ) → 0 < led.color_rgb → cur ≤ℤ pos type → Top leds cur → Top leds' (pos type)
  Top-lit (pos c) lit below (shown, others) =
      (ground (arith, stored type), λ i. ground (arith, stored i, others i))
  Top-lit (negsuc k) lit below (none_shown, others) =
      (ground (arith, stored type), λ i. ground (arith, stored i, others i))

  Top-hidden : (cur : ℤ) → pos type <ℤ cur → Top leds cur → Top leds' cur
  Top-hidden (pos c) above (shown, others) =
      (ground (arith, stored c), λ i. ground (arith, stored i, others i))
  Top-hidden (negsuc k) above h = absurd (omega arith)

  Top-unlit :
      (cur : ℤ) → led.color_rgb ≡ 0 → eqb_ℤ (pos type) cur ≡ false → Top leds cur → Top leds' cur
  Top-unlit (pos c) unlit other (shown, others) =
      (ground (arith, stored c), λ i. ground (arith, stored i, others i))
  Top-unlit (negsuc k) unlit other (none_shown, others) =
      (none_shown, λ i. ground (arith, stored i, others i))

  abbrev cur_of : Option ℕ → ℤ
  cur_of none = negsuc 0
  cur_of (some i) = pos i

  Top-switched :
      (found : Option ℕ)
      → led.color_rgb ≡ 0
      → Top leds (pos type)
      → Found leds' type found
      → Top leds' (cur_of found)
  Top-switched none unlit (shown, others) h = (refl, λ i. ground (arith, stored i, others i, h i))
  Top-switched (some k) unlit (shown, others) (below, lit, rest) =
      (lit, λ i. ground (arith, stored i, others i, rest i))

  switch_to-Top :
      (found : Option ℕ) (l : Lights)
      → l.leds ≡ leds'
      → Top leds' (cur_of found)
      → IsTop (switch_to found l).1
  unfolding switch_to
  switch_to-Top none l same h = rw same h
  switch_to-Top (some k) l same h = rw same h

  show_slot-IsTop :
      (l : Lights) → l.leds ≡ leds' → Top leds l.cur_led → IsTop (show_slot type led l).1
  unfolding show_slot
  show_slot-IsTop l same top = elim (Bool-cases (ltb 0 led.color_rgb)) [
    | inl lit ↦ elim (Bool-cases (leb_ℤ l.cur_led (pos type))) [
      | inl below ↦
          rw (lit, below)
            (subst (λ (x : List LedConfig). Top x (pos type)) (sym same)
              (Top-lit l.cur_led (ltb→lt _ _ lit) (ground arith) top))
      | inr above ↦
          rw (lit, above)
            (subst (λ (x : List LedConfig). Top x l.cur_led) (sym same)
              (Top-hidden l.cur_led (ground arith) top))
    ]
    | inr unlit ↦ elim (Bool-cases (eqb_ℤ (pos type) l.cur_led)) [
      | inl shown ↦
          rw (unlit, shown)
            (switch_to-Top (find_lit l.leds type) l same (
              Top-switched (find_lit l.leds type) (ground arith)
                (subst (Top leds) (eq_of_parts l.cur_led (pos type) (ground arith)) top)
                (subst (λ (x : List LedConfig). Found leds' type (find_lit x type)) (sym same)
                  (find_lit-Found leds' type))))
      | inr other ↦
          rw (unlit, other)
            (subst (λ (x : List LedConfig). Top x l.cur_led) (sym same)
              (Top-unlit l.cur_led (ground arith) other top))
    ]
  ]

color_at-set :
    (leds : List LedConfig) (type i : ℕ) (led : LedConfig)
    → type < length leds
    → color_at (set leds type led) i ≡ (if type == i then led.color_rgb else color_at leds i)
color_at-set leds type i led h =
    ap (λ (x : LedConfig). x.color_rgb) (led_at-set leds type i led h) ∙ ground arith

-- Whatever slot is given anew, in range or not, `g_cur_led` stays the highest lit slot.
pub set_light_locked-IsTop :
    (state : LightState) (type : ℤ) (l : Lights) → IsTop l → IsTop (set_light_locked state type l).1
unfolding set_light_locked
set_light_locked-IsTop state (negsuc n) l h = h
set_light_locked-IsTop state (pos type) l h = elim (Bool-cases (leb (length l.leds) type)) [
  | inl out ↦ rw out h
  | inr fits ↦ rw fits (
      show_slot-IsTop l.leds (set l.leds type (config_of state)) type (config_of state)
        (λ i. color_at-set l.leds type i (config_of state) (ground arith))
        (record l { leds = set l.leds type (config_of state) }) refl h)
]

set_light-IsTop :
    (light : Light) (state : LightState) (l : Lights) → IsTop l → IsTop (set_light light state l).1
unfolding set_light_backlight set_light_buttons set_light_battery set_light_notifications
    set_light_attention
set_light-IsTop backlight state l h = h
set_light-IsTop buttons state l h = h
set_light-IsTop battery state l h = set_light_locked-IsTop state (pos 0) l h
set_light-IsTop notifications state l h = set_light_locked-IsTop state (pos 1) l h
set_light-IsTop attention state l h =
    set_light_locked-IsTop (fix_attention state.flash_mode state) (pos 2) l h

-- From a state in which the current slot is the highest lit one, through any calls of the five
-- lights and any answers of the kernel, it still is: `g_cur_led` is the number of the highest lit
-- slot, or -1 where no slot is lit.
pub run-IsTop : (calls : List (Light × LightState)) (l : Lights) → IsTop l → IsTop (run l calls)
unfolding run
run-IsTop [] l h = h
run-IsTop ((light, state) ∷ calls) l h =
    run-IsTop calls (set_light light state l).1 (set_light-IsTop light state l h)

pub init-IsTop : (s : Sysfs) → IsTop (init s)
init-IsTop s = (refl, no_color)
  where
    no_color : (i : ℕ) → color_at (init s).leds i ≡ 0
    no_color zero = refl
    no_color (suc zero) = refl
    no_color (suc (suc zero)) = refl
    no_color (suc (suc (suc i))) = refl

-- Only one number can be the highest lit slot.
pub Top-unique : (leds : List LedConfig) (a b : ℤ) → Top leds a → Top leds b → a ≡ b
Top-unique leds (pos a) (pos b) (ha, ra) (hb, rb) = ground (arith, ra b, rb a)
Top-unique leds (pos a) (negsuc k) (ha, ra) (hb, rb) = absurd (omega (arith, rb a))
Top-unique leds (negsuc k) (pos b) (ha, ra) (hb, rb) = absurd (omega (arith, ra b))
Top-unique leds (negsuc j) (negsuc k) (ha, ra) (hb, rb) = ap negsuc (omega arith)
