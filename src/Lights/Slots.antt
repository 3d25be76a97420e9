-- ===== src/Lights/Slots.antt =====
-- The three slots `g_leds` of liblight/lights.c, as `set_light_locked` stores and searches them.
use native.Mathlib.Decide.{dec_le}
use android_device_gionee_p.Common.{
  ℕ, zero, suc, ◌<◌, ◌≤◌, ◌≡◌, ◌⊎◌, inl, inr, refl, ◌∙◌, List, [], ◌∷◌, Option, none, some, length,
  set, arith, ltb, ◌==◌, if◌then◌else◌, Bool-cases, ltb→lt,
}
use android_device_gionee_p.Lights.{LedConfig, led_at, find_lit}

abbrev pub color_at : List LedConfig → ℕ → ℕ
color_at leds i = (led_at leds i).color_rgb

pub led_at-set :
    (leds : List LedConfig) (type i : ℕ) (led : LedConfig)
    → type < length leds
    → led_at (set leds type led) i ≡ (if type == i then led else led_at leds i)
led_at-set [] type i led h = elim h [ ]
led_at-set (x ∷ xs) zero zero led h = refl
led_at-set (x ∷ xs) zero (suc i) led h = ground arith
led_at-set (x ∷ xs) (suc type) zero led h = ground arith
led_at-set (x ∷ xs) (suc type) (suc i) led h = led_at-set xs type i led (omega arith) ∙ ground arith

-- What the search below slot `n` promises.
abbrev pub Found : List LedConfig → ℕ → Option ℕ → Type 0
Found leds n none = (i : ℕ) → (n ≤ i) ⊎ (color_at leds i ≡ 0)
Found leds n (some k) =
    (k < n) × (0 < color_at leds k) × ((i : ℕ) → (i ≤ k) ⊎ ((n ≤ i) ⊎ (color_at leds i ≡ 0)))

module _ (leds : List LedConfig) (n : ℕ) where
  -- An unlit slot is no exception to a claim about the slots that are unlit.
  unlit_at :
      color_at leds n ≡ 0
      → (i : ℕ) → (n ≤ i) ⊎ (color_at leds i ≡ 0)
      → (suc n ≤ i) ⊎ (color_at leds i ≡ 0)
  unlit_at unlit i h = elim (dec_le (suc n) i) [
    | yes above ↦ inl above
    | no not_above ↦ elim h [
      | inl p ↦ let same : i ≡ n = omega arith in inr (rw same unlit)
      | inr q ↦ inr q
    ]
  ]

  Found-suc :
      (rest : Option ℕ)
      → Found leds n rest
      → Found leds (suc n) (if ltb 0 (color_at leds n) then some n else rest)
  Found-suc rest h = elim (Bool-cases (ltb 0 (color_at leds n))) [
    | inl lit ↦ rw lit (omega arith, ltb→lt _ _ lit, λ i. omega arith)
    | inr unlit ↦ rw unlit (skip rest h (ground arith))
  ]
    where
      skip : (rest : Option ℕ) → Found leds n rest → color_at leds n ≡ 0 → Found leds (suc n) rest
      skip none h unlit = λ i. unlit_at unlit i (h i)
      skip (some k) (below, lit, others) unlit = (
        omega arith,
        lit,
        λ i. elim (others i) [ inl low ↦ inl low | inr rest ↦ inr (unlit_at unlit i rest) ],
      )

pub find_lit-Found : (leds : List LedConfig) (n : ℕ) → Found leds n (find_lit leds n)
unfolding find_lit
find_lit-Found leds zero = λ i. inl (omega arith)
find_lit-Found leds (suc n) = Found-suc leds n (find_lit leds n) (find_lit-Found leds n)
