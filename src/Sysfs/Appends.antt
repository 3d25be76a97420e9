-- ===== src/Sysfs/Appends.antt =====
-- Actions that, while every file can be written, only append to what the files were handed:
-- one rule for each way in which lights.c builds such an action.
use android_device_gionee_p.Common.{◌≡◌, refl, sym, ◌∙◌, List, [], ◌∷◌, ◌++◌, append_assoc}
use android_device_gionee_p.Common.Int.{ℤ, IsInt32}
use android_device_gionee_p.Common.State.{State, pure, ◌>>◌}
use android_device_gionee_p.Format.{Text}
use android_device_gionee_p.Sysfs.{
  File, Sysfs, on_answer_int, write_int, on_answer_on_off, write_on_off,
}
use android_device_gionee_p.Sysfs.Writes.{
  IsUp, int_line, on_off_line, int_line-fits, on_off_line-fits, answer-write_int,
  answer-write_on_off,
}

pub record Appends (m : State Sysfs ℤ) (ws : List (File × Text)) : Type 0 where
  pub up : (s : Sysfs) → IsUp s → IsUp (m s).1
  pub written : (s : Sysfs) → IsUp s → (m s).1.written ≡ ws ++ s.written

module _ (f : File) (value : ℤ) (fits : IsInt32 value) where
  written-write_int :
      (s : Sysfs) → IsUp s → (write_int f value s).1.written ≡ (f, int_line value) ∷ s.written
  unfolding write_int
  written-write_int s up = rw (up s.attempts, on_answer_int) (rw (int_line-fits value fits))

  pub write_int-Appends : Appends (write_int f value) ((f, int_line value) ∷ [])
  write_int-Appends = record {
    up = λ s up n. rw (answer-write_int f value s) (up n);
    written = written-write_int;
  }

module _ (f : File) (on off : ℤ) (fits : IsInt32 on) (fits' : IsInt32 off) where
  written-write_on_off :
      (s : Sysfs)
      → IsUp s
      → (write_on_off f on off s).1.written ≡ (f, on_off_line on off) ∷ s.written
  unfolding write_on_off
  written-write_on_off s up =
      rw (up s.attempts, on_answer_on_off) (rw (on_off_line-fits on off fits fits'))

  pub write_on_off-Appends : Appends (write_on_off f on off) ((f, on_off_line on off) ∷ [])
  write_on_off-Appends = record {
    up = λ s up n. rw (answer-write_on_off f on off s) (up n);
    written = written-write_on_off;
  }

pub pure-Appends : (result : ℤ) → Appends (pure result) []
pure-Appends result = record { up = λ s up. up; written = λ s up. refl }

pub then-Appends :
    {m k : State Sysfs ℤ} {ws ws' : List (File × Text)}
    → Appends m ws
    → Appends k ws'
    → Appends (m >> k) (ws' ++ ws)
then-Appends {m} {k} {ws} {ws'} am ak = record {
  up = λ s up. ak.up (m s).1 (am.up s up);
  written = λ s up.
      ak.written (m s).1 (am.up s up) ∙ rw (am.written s up) (sym (append_assoc ws' ws s.written));
}
