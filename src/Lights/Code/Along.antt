-- ===== src/Lights/Code/Along.antt =====
-- What the LED's files show in the middle of a call of liblight/lights.c, while they can be
-- written.
use android_device_gionee_p.Common.{
  ℕ, ◌≡◌, ◌⊎◌, inl, refl, sym, ◌∙◌, ap, List, [], ◌∷◌, false, Option, none, some, ◌==◌, ◌%◌, ◌^◌,
  arith,
}
use android_device_gionee_p.Common.Int.{ℤ, pos, IsInt32}
use android_device_gionee_p.Format.{Text, decimal, decimal_ℤ, digits}
use android_device_gionee_p.Sysfs.{
  File, index, red_led_file, green_led_file, blue_led_file, red_timeout_file, green_timeout_file,
  blue_timeout_file, rgb_locked_file, Sysfs, newest, write_int, write_on_off,
}
use android_device_gionee_p.Sysfs.Writes.{IsUp, int_line}
use android_device_gionee_p.Sysfs.Appends.{write_int-Appends, write_on_off-Appends}
use android_device_gionee_p.Lights.{
  LedConfig, led_off, led_at, Lights, write_config, red_of, green_of, blue_of,
}
use android_device_gionee_p.Lights.Driver.{IsTimed, led_view, text_of, write_config-shows}
use android_device_gionee_p.Lights.Code.{
  Code, done, write, write_blink, read_led, read_cur_led, store_on, store_off, store_color,
  store_cur_led, chosen, leds_code, advance,
}

-- `P` holds now, and after each access that is left.
unfoldable pub Along : (Lights → Type 0) → Code → Lights → Type 0
Along P (done ret) l = P l
Along P (write f value rest) l =
    P l × (let (err, s) = write_int f value l.sysfs in Along P (rest err) (record l { sysfs = s }))
Along P (write_blink f on off rest) l =
    P l
    × (let (err, s) = write_on_off f on off l.sysfs in Along P (rest err) (record l { sysfs = s }))
Along P (read_led i rest) l = P l × Along P (rest (led_at l.leds i)) l
Along P (read_cur_led rest) l = P l × Along P (rest l.cur_led) l
Along P (store_on i on rest) l = P l × Along P rest (advance (store_on i on rest) l).1
Along P (store_off i off rest) l = P l × Along P rest (advance (store_off i off rest) l).1
Along P (store_color i color rest) l = P l × Along P rest (advance (store_color i color rest) l).1
Along P (store_cur_led cur rest) l = P l × Along P rest (record l { cur_led = cur })

pub Along-now : (P : Lights → Type 0) (c : Code) (l : Lights) → Along P c l → P l
unfolding Along
Along-now P (done ret) l h = h
Along-now P (write f value rest) l h = h.0
Along-now P (write_blink f on off rest) l h = h.0
Along-now P (read_led i rest) l h = h.0
Along-now P (read_cur_led rest) l h = h.0
Along-now P (store_on i on rest) l h = h.0
Along-now P (store_off i off rest) l h = h.0
Along-now P (store_color i color rest) l h = h.0
Along-now P (store_cur_led cur rest) l h = h.0

pub Along-advance :
    (P : Lights → Type 0) (c : Code) (l : Lights)
    → Along P c l
    → Along P (advance c l).0 (advance c l).1
unfolding Along advance
Along-advance P (done ret) l h = h
Along-advance P (write f value rest) l h = h.1
Along-advance P (write_blink f on off rest) l h = h.1
Along-advance P (read_led i rest) l h = h.1
Along-advance P (read_cur_led rest) l h = h.1
Along-advance P (store_on i on rest) l h = h.1
Along-advance P (store_off i off rest) l h = h.1
Along-advance P (store_color i color rest) l h = h.1
Along-advance P (store_cur_led cur rest) l h = h.1

-- `rgb_start` holds 0.
abbrev IsDark : Sysfs → Type 0
IsDark s = newest rgb_locked_file s.written ≡ some (int_line (pos 0))

write_int-IsDark :
    (f : File) (value : ℤ) (s : Sysfs)
    → IsInt32 value
    → (index f == 7) ≡ false
    → IsUp s × IsDark s
    → IsUp (write_int f value s).1 × IsDark (write_int f value s).1
unfolding newest
write_int-IsDark f value s fits other (up, dark) =
    let appends = write_int-Appends f value fits in
    (appends.up s up, rw (appends.written s up) (rw other dark))

write_on_off-IsDark :
    (f : File) (on off : ℤ) (s : Sysfs)
    → IsInt32 on
    → IsInt32 off
    → (index f == 7) ≡ false
    → IsUp s × IsDark s
    → IsUp (write_on_off f on off s).1 × IsDark (write_on_off f on off s).1
unfolding newest
write_on_off-IsDark f on off s fits fits' other (up, dark) =
    let appends = write_on_off-Appends f on off fits fits' in
    (appends.up s up, rw (appends.written s up) (rw other dark))

-- While `rgb_start` holds 1, the files hold a whole configuration that is allowed, or what they
-- held at boot.
abbrev pub IsWholeIn : List (File × Text) → (LedConfig → Type 0) → List (File × Text) → Type 0
IsWholeIn boot Allowed w =
    newest rgb_locked_file w ≡ some (int_line (pos 1))
    → ((led : LedConfig) × Allowed led × (led_view w ≡ text_of led)) ⊎ (led_view w ≡ led_view boot)

abbrev pub IsWhole : List (File × Text) → (LedConfig → Type 0) → Lights → Type 0
IsWhole boot Allowed l = IsWholeIn boot Allowed l.sysfs.written

zero_line : int_line (pos 0) ≡ 48 ∷ 10 ∷ []
unfolding decimal digits decimal_ℤ
zero_line = refl

one_line : int_line (pos 1) ≡ 49 ∷ 10 ∷ []
unfolding decimal digits decimal_ℤ
one_line = refl

first_byte : Option Text → ℕ
first_byte none = 0
first_byte (some []) = 0
first_byte (some (b ∷ rest)) = b

not_both : (o : Option Text) → o ≡ some (int_line (pos 0)) → o ≡ some (int_line (pos 1)) → ⊥
unfolding first_byte
not_both o zero_there one_there =
    let e = ap some (sym zero_line) ∙ sym zero_there ∙ one_there ∙ ap some one_line in
    let h : ◌≡◌ {A = ℕ} 48 49 = ap first_byte e in omega arith

channel-IsInt32 : (n : ℕ) → IsInt32 (pos (n % 2 ^ 8))
channel-IsInt32 n = omega arith

module _ (boot : List (File × Text)) (Allowed : LedConfig → Type 0) where
  dark-IsWhole : (l : Lights) → IsDark l.sysfs → IsWhole boot Allowed l
  dark-IsWhole l dark lit = absurd (not_both (newest rgb_locked_file l.sysfs.written) dark lit)

  -- Between the first and the last write of a configuration `rgb_start` holds 0.
  dark_writes :
      (led : LedConfig) (l : Lights)
      → IsUp l.sysfs
      → IsTimed led
      → let s1 = (write_int rgb_locked_file (pos 0) l.sysfs).1 in
        let s2 = (write_int red_led_file (pos (red_of led.color_rgb)) s1).1 in
        let s3 = (write_int green_led_file (pos (green_of led.color_rgb)) s2).1 in
        let s4 = (write_int blue_led_file (pos (blue_of led.color_rgb)) s3).1 in
        let s5 = (write_on_off red_timeout_file led.on_ms led.off_ms s4).1 in
        let s6 = (write_on_off green_timeout_file led.on_ms led.off_ms s5).1 in
        let s7 = (write_on_off blue_timeout_file led.on_ms led.off_ms s6).1 in
        let whole = λ (s : Sysfs). IsWhole boot Allowed (record l { sysfs = s }) in
        whole s1 × whole s2 × whole s3 × whole s4 × whole s5 × whole s6 × whole s7
  unfolding newest
  dark_writes led l up (on, off) =
      let first = write_int-Appends rgb_locked_file (pos 0) (omega arith) in
      let s1 = (write_int rgb_locked_file (pos 0) l.sysfs).1 in
      let d1 : IsUp s1 × IsDark s1 = (first.up l.sysfs up, rw (first.written l.sysfs up) refl) in
      let s2 = (write_int red_led_file (pos (red_of led.color_rgb)) s1).1 in
      let d2 =
        write_int-IsDark red_led_file (pos (red_of led.color_rgb)) s1 (channel-IsInt32 _) refl d1 in
      let s3 = (write_int green_led_file (pos (green_of led.color_rgb)) s2).1 in
      let d3 =
        write_int-IsDark green_led_file (pos (green_of led.color_rgb)) s2 (channel-IsInt32 _) refl
          d2 in
      let s4 = (write_int blue_led_file (pos (blue_of led.color_rgb)) s3).1 in
      let d4 =
        write_int-IsDark blue_led_file (pos (blue_of led.color_rgb)) s3 (channel-IsInt32 _) refl
          d3 in
      let s5 = (write_on_off red_timeout_file led.on_ms led.off_ms s4).1 in
      let d5 = write_on_off-IsDark red_timeout_file led.on_ms led.off_ms s4 on off refl d4 in
      let s6 = (write_on_off green_timeout_file led.on_ms led.off_ms s5).1 in
      let d6 = write_on_off-IsDark green_timeout_file led.on_ms led.off_ms s5 on off refl d5 in
      let s7 = (write_on_off blue_timeout_file led.on_ms led.off_ms s6).1 in
      let d7 = write_on_off-IsDark blue_timeout_file led.on_ms led.off_ms s6 on off refl d6 in
      let dark = λ (s : Sysfs) (d : IsDark s). dark-IsWhole (record l { sysfs = s }) d in
      (
        dark s1 d1.1,
        dark s2 d2.1,
        dark s3 d3.1,
        dark s4 d4.1,
        dark s5 d5.1,
        dark s6 d6.1,
        dark s7 d7.1,
      )

  -- The reads and writes of a configuration, up to the last one.
  pub leds_code-Along :
      (led : Option ℕ) (rest : Code) (l : Lights)
      → let shown = chosen led l.leds in
        let after = record l { sysfs = (write_config shown l.sysfs).1 } in
        IsUp l.sysfs
        → IsTimed shown
        → Allowed shown
        → IsWhole boot Allowed l
        → (IsWhole boot Allowed after → Along (IsWhole boot Allowed) rest after)
        → Along (IsWhole boot Allowed) (leds_code led rest) l
  unfolding Along leds_code write_config newest
  leds_code-Along none rest l up timed allowed whole behind =
      let (d1, d2, d3, d4, d5, d6, d7) = dark_writes led_off l up timed in
      let shown =
        behind (λ lit. inl (led_off, allowed, write_config-shows led_off l.sysfs up timed)) in
      (whole, (d1, (d2, (d3, (d4, (d5, (d6, (d7, shown))))))))
  leds_code-Along (some i) rest l up timed allowed whole behind =
      let led = led_at l.leds i in
      let (d1, d2, d3, d4, d5, d6, d7) = dark_writes led l up timed in
      let shown = behind (λ lit. inl (led, allowed, write_config-shows led l.sysfs up timed)) in
      (
        whole,
        (
          whole,
          (
            whole,
            (
              whole,
              (d1, (d2, (d3, (d4, (d4, (d4, (d5, (d5, (d5, (d6, (d6, (d6, (d7, shown))))))))))))),
            ),
          ),
        ),
      )
