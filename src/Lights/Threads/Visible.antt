-- ===== src/Lights/Threads/Visible.antt =====
-- What can be seen of the LED while the threads of liblight/lights.c are at work.
use native.Mathlib.Decide.{ℕ_discrete}
use android_device_gionee_p.Common.{
  ℕ, ◌<◌, ◌≤◌, ◌≡◌, ◌⊎◌, inl, inr, refl, sym, ◌∙◌, ap, subst, List, [], ◌∷◌, ◌++◌, some, get_elem?,
  set, get_elem?-set_self, get_elem?-set_ne,
}
use android_device_gionee_p.Sysfs.{Sysfs}
use android_device_gionee_p.Sysfs.Writes.{IsUp}
use android_device_gionee_p.Lights.{LightState, Lights, init, Light, run}
use android_device_gionee_p.Lights.Display.{IsRequest}
use android_device_gionee_p.Lights.Shown.{AreRequests, sound, lit_request_shown}
use android_device_gionee_p.Lights.Code.{Code, call_code, advance}
use android_device_gionee_p.Lights.Code.Along.{Along, Along-now, Along-advance, IsWhole}
use android_device_gionee_p.Lights.Code.Visible.{call_code-Along}
use android_device_gionee_p.Lights.Threads.{
  Call, Thread, idle, inside, System, Step, enter, access, leave, Reach, here, next, start, order,
  left,
}
use android_device_gionee_p.Lights.Threads.Serial.{
  IsIdle, not_idle, run-HasSlots, Serial, start-Serial, reached-Serial, linearizable,
}
use android_device_gionee_p.Lights.Driver.{led_view, text_of}
use android_device_gionee_p.Lights.Refines.{boot_wish, wanted}
use android_device_gionee_p.Lights.Threads.Progress.{all_served}
use android_device_gionee_p.Lights.Threads.Weights.{alone, vacant-IsIdle}
use android_device_gionee_p.Lights.Threads.Asked.{
  IsAllowed, IsAllowed-before, IsAllowed-last, AreAllRequests, reached-AreRequests,
  served-AreRequests, run-SlotsFit, run-IsWhole,
}

-- Who is inside after thread `i` has moved is thread `i`.
mover :
    (threads : List Thread) (i j : ℕ) {t u : Thread} {c : Code} {calls : List Call}
    → get_elem? threads i ≡ some u
    → ((k : ℕ) → (i ≡ k) ⊎ IsIdle (get_elem? threads k))
    → get_elem? (set threads i t) j ≡ some (inside c calls)
    → t ≡ inside c calls
mover threads i j {t} at others there = elim (ℕ_discrete i j) [
  | yes e ↦
      let now =
        ap (λ (n : ℕ). get_elem? (set threads i t) n) (sym e) ∙ get_elem?-set_self threads i t at in
      cc
  | no ne ↦ elim (others j) [
    | inl e ↦ absurd (ne e)
    | inr h ↦ absurd (not_idle (sym (get_elem?-set_ne threads i j t ne) ∙ there) h)
  ]
]

same_inside : {c e : Code} {calls more : List Call} → inside c calls ≡ inside e more → c ≡ e
same_inside h = cc

not_inside : {c : Code} {calls more : List Call} → idle more ≡ inside c calls → ⊥
not_inside h = cc

module _ (boot : Sysfs) where
  abbrev AllWhole : System → Lights → Type 0
  AllWhole s l = IsWhole boot.written (IsAllowed (order s.served)) l

  -- Now, and after each access that a thread inside has still to make.
  record IsVisible (s : System) : Type 0 where
    now : AllWhole s s.lights
    along :
        (j : ℕ) (c : Code) (calls : List Call)
        → get_elem? s.threads j ≡ some (inside c calls)
        → Along (AllWhole s) c s.lights

  IsWhole-before :
      (s : System) (i : ℕ) (call : Call) (l : Lights)
      → AllWhole s l
      → IsWhole boot.written (IsAllowed (order (s.served ++ (i, call) ∷ []))) l
  IsWhole-before s i call l h lit = elim (h lit) [
    | inl (led, allowed, view) ↦ inl (led, IsAllowed-before s.served i call led allowed, view)
    | inr view ↦ inr view
  ]

  -- The threads of plans whose flash times are C `int`s, while the files can be written.
  module _ (plans : List (List Call)) (up : IsUp boot) (requests : AreAllRequests plans) where
    enter-Along :
        (s : System) (i : ℕ) (light : Light) (state : LightState)
        → IsRequest state
        → AreRequests (order s.served)
        → s.lights ≡ run (init boot) (order s.served)
        → Along
            (IsWhole boot.written (IsAllowed (order (s.served ++ (i, (light, state)) ∷ []))))
            (call_code light state)
            s.lights
    enter-Along s i light state asked before lights =
        subst
          (Along (IsWhole boot.written (IsAllowed (order (s.served ++ (i, (light, state)) ∷ []))))
            (call_code light state))
          (sym lights)
          (call_code-Along boot.written _ (inl refl) light state (run (init boot) (order s.served))
            (sound boot (order s.served) up before).up
            (run-HasSlots (init boot) (order s.served) refl) asked
            (IsAllowed-last s.served i light state)
            (λ j.
              let (allowed, timed) = run-SlotsFit boot (order s.served) up before j in
              (IsAllowed-before s.served i (light, state) _ allowed, timed))
            (IsWhole-before s i (light, state) (run (init boot) (order s.served))
              (run-IsWhole boot (order s.served) up before)))

    Step-IsVisible :
        {s t : System}
        → Reach (start (init boot) plans) s
        → Serial (init boot) s
        → IsVisible s
        → Step s t
        → IsVisible t
    Step-IsVisible {s} r serial h (enter i light state calls at vacant) =
        let pending =
          subst AreRequests (ap left at) (reached-AreRequests (init boot) plans requests i r).1 in
        let before = served-AreRequests (init boot) plans requests r in
        let lights = linearizable (init boot) plans refl r vacant in
        record {
          now = IsWhole-before s i (light, state) s.lights h.now;
          along = λ j e more there.
              let same = same_inside (
                mover s.threads i j at (λ k. inr (vacant-IsIdle (init boot) serial vacant k))
                  there) in
              subst
                (λ (d : Code).
                  Along
                    (IsWhole boot.written
                      (IsAllowed (order (s.served ++ (i, (light, state)) ∷ []))))
                    d s.lights)
                same (enter-Along s i light state pending.0 before lights);
        }
    Step-IsVisible {s} r serial h (access i c calls at pending) = record {
      now =
          Along-now (AllWhole s) _ _ (Along-advance (AllWhole s) c s.lights (h.along i c calls at));
      along = λ j e more there.
          let same =
            same_inside (mover s.threads i j at (alone (init boot) i c calls serial at) there) in
          subst (λ (d : Code). Along (AllWhole s) d (advance c s.lights).1) same
            (Along-advance (AllWhole s) c s.lights (h.along i c calls at));
    }
    Step-IsVisible {s} r serial h (leave i c calls at over) = record {
      now = h.now;
      along = λ j e more there.
          absurd
            (not_inside (mover s.threads i j at (alone (init boot) i c calls serial at) there));
    }

    start-IsVisible : IsVisible (start (init boot) plans)
    start-IsVisible = record {
      now = λ lit. inr refl;
      along = λ j c calls there.
          absurd
            (not_idle there (vacant-IsIdle (init boot) (start-Serial (init boot) plans) refl j));
    }

    Reach-IsVisible : {s : System} → Reach (start (init boot) plans) s → IsVisible s
    Reach-IsVisible here = start-IsVisible
    Reach-IsVisible (next r step) =
        Step-IsVisible r (reached-Serial (init boot) plans refl r) (Reach-IsVisible r) step

    -- From boot, while the files can be written, for any plans of calls whose flash times are C
    -- `int`s, at every moment, also in the middle of calls: as long as `rgb_start` holds 1, the
    -- LED's other files hold together the colors and times of one configuration, which is off or
    -- was asked for by a call that has got the lock, or all of them hold what they did at boot.
    pub never_torn :
        {s : System}
        → Reach (start (init boot) plans) s
        → IsWhole boot.written (IsAllowed (order s.served)) s.lights
    never_torn r = (Reach-IsVisible r).now

    -- From boot, while the files can be written, for any plans of calls whose flash times are C
    -- `int`s: when no thread can move any more, and slot `c` is lit by the last call for its
    -- light that got the lock, and no higher slot is lit by its own, the LED's files hold the
    -- colors and times which that call asked for.
    pub threads_shown :
        {s : System} (c : ℕ)
        → Reach (start (init boot) plans) s
        → ((u : System) → Step s u → ⊥)
        → 0 < (wanted (order s.served) boot_wish c).color_rgb
        → ((i : ℕ) → (i ≤ c) ⊎ ((wanted (order s.served) boot_wish i).color_rgb ≡ 0))
        → led_view s.lights.sysfs.written ≡ text_of (wanted (order s.served) boot_wish c)
    threads_shown {s} c r stuck lit others =
        ap (λ (l : Lights). led_view l.sysfs.written)
          (all_served (init boot) plans 0 refl r stuck).0
        ∙ lit_request_shown boot (order s.served) up
            (served-AreRequests (init boot) plans requests r) c lit others
