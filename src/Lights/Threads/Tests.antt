-- ===== src/Lights/Threads/Tests.antt =====
-- Threads of liblight/lights.c at concrete inputs.
use android_device_gionee_p.Common.{
  arith, ℕ, zero, suc, ◌<◌, ◌⊎◌, inl, inr, ◌*◌, ◌≤◌, ◌≡◌, refl, sym, subst, ap, ◌∙◌, List, [], ◌∷◌,
  true, false, some, get_elem?,
}
use android_device_gionee_p.Common.Int.{pos}
use android_device_gionee_p.Sysfs.{writes}
use android_device_gionee_p.Lights.{
  LightState, flash_timed, Lights, init, backlight, battery, attention, run,
}
use android_device_gionee_p.Lights.Code.{Code, call_code, advance}
use android_device_gionee_p.Sysfs.Writes.{IsUp}
use android_device_gionee_p.Lights.Refines.{boot_wish, wanted}
use android_device_gionee_p.Lights.Driver.{led_view, text_of}
use android_device_gionee_p.Lights.Code.Along.{IsWhole}
use android_device_gionee_p.Lights.Threads.Asked.{IsAllowed, AreAllRequests}
use android_device_gionee_p.Lights.Threads.Visible.{never_torn, threads_shown}
use android_device_gionee_p.Lights.Threads.{
  Call, Thread, idle, inside, System, Step, Reach, enter, access, leave, start, all_idle, order,
  calls_of, left,
}
use android_device_gionee_p.Lights.Threads.Serial.{linearizable}
use android_device_gionee_p.Lights.Threads.Progress.{all_served}
use android_device_gionee_p.Lights.Threads.Finish.{AreFinished, IsServed, can_finish}
use android_device_gionee_p.Lights.Threads.Weights.{steps, steps_bounded, calls_in}
use android_device_gionee_p.Lights.Threads.Schedule.{Run, schedule}

abbrev boot : Lights
boot = init (record {
  answer = λ n. writes;
  attempts = 0;
  written = [];
  int_warned = false;
  on_off_warned = false;
  warnings = [];
})

abbrev asks : ℕ → LightState
asks color = record {
  color = color;
  flash_mode = flash_timed;
  flash_on_ms = pos 500;
  flash_off_ms = pos 2000;
}

boot-IsUp : IsUp boot.sysfs
boot-IsUp n = refl

-- One thread lights the battery's LED and the screen, the other one asks for attention.
abbrev plans : List (List Call)
plans =
    ((battery, asks 0xff00ff00) ∷ (backlight, asks 0xff808080) ∷ [])
    ∷ ((attention, asks 0xffff0000) ∷ [])
    ∷ []

-- Thread 1 wants the lock while thread 0 has it.
abbrev contended : Run (start boot plans)
contended = schedule boot plans (0 ∷ 1 ∷ 0 ∷ 1 ∷ [])

abbrev both : ℕ → List ℕ
both zero = []
both (suc n) = 1 ∷ 0 ∷ both n

abbrev over : Run (start boot plans)
over = schedule boot plans (both 44)

contended_state :
    (contended.last.locked ≡ true) × (order contended.last.served ≡ (battery, asks 0xff00ff00) ∷ [])
unfolding schedule call_code advance
contended_state = (refl, refl)

over_state :
    (over.last.threads ≡ idle [] ∷ idle [] ∷ [])
    × (order over.last.served
        ≡ (attention, asks 0xffff0000)
          ∷ (battery, asks 0xff00ff00)
          ∷ (backlight, asks 0xff808080)
          ∷ [])
    × (steps over.reach ≡ 35)
unfolding schedule call_code advance
over_state = (refl, refl, refl)

abbrev holder : Code
holder = (advance (call_code battery (asks 0xff00ff00)) boot).0

contended_holder :
    get_elem? contended.last.threads 0 ≡ some (inside holder ((backlight, asks 0xff808080) ∷ []))
unfolding schedule call_code advance
contended_holder = refl

over_vacant : over.last.locked ≡ false
unfolding schedule call_code advance
over_vacant = refl

linearizable_example : over.last.lights ≡ run boot (order over.last.served)
linearizable_example = linearizable boot plans refl over.reach over_vacant

-- Thread 1 has still its call to make, and waits.
contended_waiting :
    get_elem? contended.last.threads 1 ≡ some (idle ((attention, asks 0xffff0000) ∷ []))
unfolding schedule call_code advance
contended_waiting = refl

can_finish_example :
    (u : System) × Reach contended.last u
    × AreFinished u.threads
    × (u.lights ≡ run boot (order u.served))
    × IsServed plans u
can_finish_example = can_finish boot plans refl contended.reach

steps_bounded_example : steps over.reach ≤ 27 * calls_in plans
steps_bounded_example = steps_bounded boot plans refl over.reach

ended : (i : ℕ) (t : Thread) → get_elem? {0} (idle [] ∷ idle [] ∷ []) i ≡ some t → t ≡ idle []
ended zero t e = cc
ended (suc zero) t e = cc
ended (suc (suc i)) t e = cc

ended_stuck : {s u : System} → s.threads ≡ idle [] ∷ idle [] ∷ [] → Step s u → ⊥
ended_stuck {s} e (enter i light state calls at vacant) =
    let h =
      ended i (idle ((light, state) ∷ calls))
        (ap (λ (ts : List Thread). get_elem? ts i) (sym e) ∙ at) in
    cc
ended_stuck {s} e (access i c calls at pending) =
    let h = ended i (inside c calls) (ap (λ (ts : List Thread). get_elem? ts i) (sym e) ∙ at) in cc
ended_stuck {s} e (leave i c calls at finished) =
    let h = ended i (inside c calls) (ap (λ (ts : List Thread). get_elem? ts i) (sym e) ∙ at) in cc

over_stuck : (u : System) → Step over.last u → ⊥
over_stuck u step = ended_stuck over_state.0 step

all_served_example :
    (over.last.lights ≡ run boot (order over.last.served))
    × (calls_of 0 over.last.served ≡ left (get_elem? (all_idle plans) 0))
all_served_example = all_served boot plans 0 refl over.reach over_stuck

plans-AreAllRequests : AreAllRequests plans
plans-AreAllRequests = omega arith

never_torn_example :
    IsWhole boot.sysfs.written (IsAllowed (order contended.last.served)) contended.last.lights
never_torn_example = never_torn boot.sysfs plans boot-IsUp plans-AreAllRequests contended.reach

abbrev over_calls : List Call
over_calls =
    (attention, asks 0xffff0000) ∷ (battery, asks 0xff00ff00) ∷ (backlight, asks 0xff808080) ∷ []

above_two : (i : ℕ) → (i ≤ 2) ⊎ ((wanted over_calls boot_wish i).color_rgb ≡ 0)
unfolding wanted
above_two zero = inl (omega arith)
above_two (suc zero) = inl (omega arith)
above_two (suc (suc zero)) = inl (omega arith)
above_two (suc (suc (suc i))) = inr (ground arith)

above_attention : (i : ℕ) → (i ≤ 2) ⊎ ((wanted (order over.last.served) boot_wish i).color_rgb ≡ 0)
above_attention =
    subst (λ (calls : List Call). (i : ℕ) → (i ≤ 2) ⊎ ((wanted calls boot_wish i).color_rgb ≡ 0))
      (sym over_state.1) above_two

attention_lit : 0 < (wanted (order over.last.served) boot_wish 2).color_rgb
unfolding schedule call_code advance wanted
attention_lit = omega arith

threads_shown_example :
    led_view over.last.lights.sysfs.written ≡ text_of (wanted (order over.last.served) boot_wish 2)
threads_shown_example =
    threads_shown boot.sysfs plans boot-IsUp plans-AreAllRequests 2 over.reach over_stuck
      attention_lit above_attention

attention_wish :
    wanted (order over.last.served) boot_wish 2
    ≡ record { color_rgb = 0xff0000; on_ms = pos 500; off_ms = pos 2000 }
unfolding schedule call_code advance wanted
attention_wish = refl
