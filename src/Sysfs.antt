-- ===== src/Sysfs.antt =====
-- The LED and backlight attribute files of liblight/lights.c, and how it writes them.
-- Opening and writing a file is the kernel's answer: `answer n` is what the n-th attempt meets.
-- The buffers' texts, the files' contents, the errors and the log lines are modelled.
pub mod Writes
pub mod Appends
use Prim.Native.String.{String}
use android_device_gionee_p.Common.{
  ℕ, zero, suc, ◌+◌, ◌-◌, List, [], ◌∷◌, ◌++◌, Bool, true, false, Option, none, some, ◌==◌,
  if◌then◌else◌, length, take, replicate,
}
use android_device_gionee_p.Common.Int.{ℤ, pos, neg_ℕ}
use android_device_gionee_p.Common.State.{State}
use android_device_gionee_p.Format.{Text, codes, newline, decimal_ℤ, stored}

-- The files whose names the source keeps in constants.
pub data File : Type 0 where
  lcd_file red_led_file green_led_file blue_led_file : File
  red_timeout_file green_timeout_file blue_timeout_file : File
  rgb_locked_file led_enable_file : File

abbrev pub path : File → String
path lcd_file = "/sys/class/leds/lcd-backlight/brightness"
path red_led_file = "/sys/class/leds/red/brightness"
path green_led_file = "/sys/class/leds/green/brightness"
path blue_led_file = "/sys/class/leds/blue/brightness"
path red_timeout_file = "/sys/class/leds/red/on_off_ms"
path green_timeout_file = "/sys/class/leds/green/on_off_ms"
path blue_timeout_file = "/sys/class/leds/blue/on_off_ms"
path rgb_locked_file = "/sys/class/leds/red/rgb_start"
path led_enable_file = "/sys/class/leds/button-backlight/brightness"

-- A number for each file, by which two files are compared.
abbrev pub index : File → ℕ
index lcd_file = 0
index red_led_file = 1
index green_led_file = 2
index blue_led_file = 3
index red_timeout_file = 4
index green_timeout_file = 5
index blue_timeout_file = 6
index rgb_locked_file = 7
index led_enable_file = 8

-- `errno` beside a failed call.
pub data Answer : Type 0 where
  open_fails : ℕ → Answer
  write_fails : ℕ → Answer
  writes : Answer

pub record Sysfs : Type 0 where
  pub answer : ℕ → Answer
  pub attempts : ℕ
  -- What each successful `write` handed to the driver of a file, newest first.
  pub written : List (File × Text)
  -- The two static flags `already_warned`, and the files that `ALOGE` named, newest first.
  pub int_warned : Bool
  pub on_off_warned : Bool
  pub warnings : List File

-- `char buffer[32] = {0,}; bytes = snprintf(buffer, sizeof(buffer), …); write(fd, buffer, bytes)`.
abbrev pub buffer_size : ℕ
buffer_size = 32

unfoldable pub through_buffer : Text → Text
through_buffer t =
    let kept = stored buffer_size t in
    take (length t) (kept ++ replicate (buffer_size - length kept) 0)

-- The newest text of a file, if it was written at all.
unfoldable pub newest : File → List (File × Text) → Option Text
newest f [] = none
newest f ((g, t) ∷ rest) = if index g == index f then some t else newest f rest

unfoldable pub content : Sysfs → File → Option Text
unfolding newest
content s f = newest f s.written

pub on_answer_int : Answer → File → ℤ → State Sysfs ℤ
on_answer_int writes f value s =
    (pos 0, record s { written = (f, through_buffer (decimal_ℤ value ++ newline)) ∷ s.written })
on_answer_int (write_fails errno) f value s = (neg_ℕ errno, s)
on_answer_int (open_fails errno) f value s = (
  neg_ℕ errno,
  if s.int_warned then s else record s { int_warned = true; warnings = f ∷ s.warnings },
)

-- The kernel's next answer is used up.
abbrev pub attempt : Sysfs → Sysfs
attempt s = record s { attempts = suc s.attempts }

unfoldable pub write_int : File → ℤ → State Sysfs ℤ
unfolding on_answer_int
write_int f value s = on_answer_int (s.answer s.attempts) f value (attempt s)

pub on_answer_on_off : Answer → File → ℤ → ℤ → State Sysfs ℤ
on_answer_on_off writes f on off s = (
  pos 0,
  record s {
    written = (f, through_buffer (decimal_ℤ on ++ b' ' ∷ decimal_ℤ off ++ newline)) ∷ s.written;
  },
)
on_answer_on_off (write_fails errno) f on off s = (neg_ℕ errno, s)
on_answer_on_off (open_fails errno) f on off s = (
  neg_ℕ errno,
  if s.on_off_warned then s else record s { on_off_warned = true; warnings = f ∷ s.warnings },
)

unfoldable pub write_on_off : File → ℤ → ℤ → State Sysfs ℤ
unfolding on_answer_on_off
write_on_off f on off s = on_answer_on_off (s.answer s.attempts) f on off (attempt s)
