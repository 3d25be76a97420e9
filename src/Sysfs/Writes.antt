-- ===== src/Sysfs/Writes.antt =====
-- What a write of lights.c leaves in its file, on each answer of the kernel.
use android_device_gionee_p.Common.{
  ℕ, ◌+◌, ◌-◌, ◌<◌, ◌≤◌, ◌≡◌, ◌⊎◌, ◌∷◌, ◌++◌, length, replicate, true, false, Bool, some,
  if◌then◌else◌, ◌==◌, arith, take-all, take-length-append, length-append,
}
use android_device_gionee_p.Common.Int.{ℤ, neg_ℕ, IsInt32}
use android_device_gionee_p.Format.{Text, newline, decimal_ℤ}
use android_device_gionee_p.Format.Bounds.{length-decimal_ℤ}
use android_device_gionee_p.Sysfs.{
  File, index, open_fails, write_fails, writes, Sysfs, through_buffer, newest, content,
  on_answer_int, write_int, on_answer_on_off, write_on_off, buffer_size,
}

-- A text that leaves room for the NUL reaches the driver whole.
pub through_buffer-fits : (t : Text) → length t < buffer_size → through_buffer t ≡ t
unfolding through_buffer
through_buffer-fits t h =
    rw (take-all 31 t (omega arith)) (take-length-append t (replicate (32 - length t) 0))

-- The lines that `write_int` and `write_on_off` print.
abbrev pub int_line : ℤ → Text
int_line value = decimal_ℤ value ++ newline

abbrev pub on_off_line : ℤ → ℤ → Text
on_off_line on off = decimal_ℤ on ++ b' ' ∷ decimal_ℤ off ++ newline

pub int_line-fits : (value : ℤ) → IsInt32 value → through_buffer (int_line value) ≡ int_line value
int_line-fits value h =
    through_buffer-fits (int_line value)
      (omega (arith, length-append (decimal_ℤ value) newline, length-decimal_ℤ value h))

pub on_off_line-fits :
    (on off : ℤ)
    → IsInt32 on
    → IsInt32 off
    → through_buffer (on_off_line on off) ≡ on_off_line on off
on_off_line-fits on off h k = through_buffer-fits (on_off_line on off) (
    omega (
      arith,
      length-append (decimal_ℤ on ++ b' ' ∷ decimal_ℤ off) newline,
      length-append (decimal_ℤ on) (b' ' ∷ decimal_ℤ off),
      length-decimal_ℤ on h,
      length-decimal_ℤ off k,
    ))

-- Every attempt to open and write succeeds.
abbrev pub IsUp : Sysfs → Type 0
IsUp s = (n : ℕ) → s.answer n ≡ writes

module _ (f : File) (value : ℤ) (s : Sysfs) where
  pub answer-write_int : (write_int f value s).1.answer ≡ s.answer
  unfolding write_int
  answer-write_int = ground arith

  pub content-write_int :
      s.answer s.attempts ≡ writes
      → IsInt32 value
      → (g : File)
      → content (write_int f value s).1 g
        ≡ (if index f == index g then some (int_line value) else content s g)
  unfolding write_int content newest
  content-write_int up fits g = rw (up, on_answer_int) (rw (int_line-fits value fits))

  -- Without success no file changes, and the result is the negated `errno`.
  pub write_int_fails :
      (errno : ℕ)
      → (s.answer s.attempts ≡ open_fails errno) ⊎ (s.answer s.attempts ≡ write_fails errno)
      → ((write_int f value s).0 ≡ neg_ℕ errno) × ((write_int f value s).1.written ≡ s.written)
  unfolding write_int
  write_int_fails errno h = ground arith

module _ (f : File) (on off : ℤ) (s : Sysfs) where
  pub answer-write_on_off : (write_on_off f on off s).1.answer ≡ s.answer
  unfolding write_on_off
  answer-write_on_off = ground arith

  pub content-write_on_off :
      s.answer s.attempts ≡ writes
      → IsInt32 on
      → IsInt32 off
      → (g : File)
      → content (write_on_off f on off s).1 g
        ≡ (if index f == index g then some (on_off_line on off) else content s g)
  unfolding write_on_off content newest
  content-write_on_off up fits fits' g =
      rw (up, on_answer_on_off) (rw (on_off_line-fits on off fits fits'))

abbrev count : Bool → ℕ
count true = 1
count false = 0

-- Each of the two writers has warned at most once, and only if its flag is set.
abbrev pub IsQuiet : Sysfs → Type 0
IsQuiet s = length s.warnings ≤ count s.int_warned + count s.on_off_warned

pub write_int-IsQuiet :
    (f : File) (value : ℤ) (s : Sysfs) → IsQuiet s → IsQuiet (write_int f value s).1
unfolding write_int
write_int-IsQuiet f value s h = ground arith

pub write_on_off-IsQuiet :
    (f : File) (on off : ℤ) (s : Sysfs) → IsQuiet s → IsQuiet (write_on_off f on off s).1
unfolding write_on_off
write_on_off-IsQuiet f on off s h = ground arith
