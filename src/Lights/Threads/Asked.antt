-- ===== src/Lights/Threads/Asked.antt =====
-- The configurations that calls of liblight/lights.c ask for, and those that its slots hold after
-- them.
use android_device_gionee_p.Common.{
  ℕ, zero, suc, ◌≡◌, ◌⊎◌, inl, inr, refl, sym, ◌∙◌, ap, subst, List, [], ◌∷◌, ◌++◌, Bool, true,
  false, Option, none, some, get_elem?, ◌==◌, if◌then◌else◌, Bool-cases, arith,
}
use android_device_gionee_p.Common.Int.{ℤ, pos, negsuc}
use android_device_gionee_p.Sysfs.{Sysfs}
use android_device_gionee_p.Sysfs.Writes.{IsUp}
use android_device_gionee_p.Lights.{LightState, LedConfig, led_off, Lights, init, Light, run}
use android_device_gionee_p.Lights.Refines.{request, update, boot_wish, wanted}
use android_device_gionee_p.Lights.Display.{shown}
use android_device_gionee_p.Lights.Shown.{AreRequests, slots-wanted, sound}
use android_device_gionee_p.Lights.Code.Along.{IsWhole}
use android_device_gionee_p.Lights.Code.Visible.{IsAskedBy, SlotsFit}
use android_device_gionee_p.Lights.Threads.{
  Call, System, Reach, start, all_idle, order, calls_of, left,
}
use android_device_gionee_p.Lights.Threads.Served.{Reach-plan}

abbrev pub IsAskedIn : List Call → LedConfig → Type 0
IsAskedIn [] led = ⊥
IsAskedIn ((light, state) ∷ calls) led = IsAskedBy (request light state) led ⊎ IsAskedIn calls led

-- Off, or asked for by one of the calls.
abbrev pub IsAllowed : List Call → LedConfig → Type 0
IsAllowed calls led = (led ≡ led_off) ⊎ IsAskedIn calls led

IsAskedIn-append :
    (calls more : List Call) (led : LedConfig) → IsAskedIn calls led → IsAskedIn (calls ++ more) led
IsAskedIn-append [] more led h = absurd h
IsAskedIn-append ((light, state) ∷ calls) more led (inl h) = inl h
IsAskedIn-append ((light, state) ∷ calls) more led (inr h) = inr (IsAskedIn-append calls more led h)

IsAskedIn-last :
    (calls : List Call) (light : Light) (state : LightState) (led : LedConfig)
    → IsAskedBy (request light state) led
    → IsAskedIn (calls ++ (light, state) ∷ []) led
IsAskedIn-last [] light state led h = inl h
IsAskedIn-last ((other, asked) ∷ calls) light state led h =
    inr (IsAskedIn-last calls light state led h)

order-snoc :
    (served : List (ℕ × Call)) (i : ℕ) (call : Call)
    → order (served ++ (i, call) ∷ []) ≡ order served ++ call ∷ []
order-snoc [] i call = refl
order-snoc ((j, other) ∷ rest) i call =
    ap (λ (calls : List Call). other ∷ calls) (order-snoc rest i call)

pub IsAllowed-before :
    (served : List (ℕ × Call)) (i : ℕ) (call : Call) (led : LedConfig)
    → IsAllowed (order served) led
    → IsAllowed (order (served ++ (i, call) ∷ [])) led
IsAllowed-before served i call led (inl h) = inl h
IsAllowed-before served i call led (inr h) =
    rw (order-snoc served i call) (inr (IsAskedIn-append (order served) (call ∷ []) led h))

pub IsAllowed-last :
    (served : List (ℕ × Call)) (i : ℕ) (light : Light) (state : LightState) (led : LedConfig)
    → IsAskedBy (request light state) led
    → IsAllowed (order (served ++ (i, (light, state)) ∷ [])) led
IsAllowed-last served i light state led h =
    rw (order-snoc served i (light, state)) (inr (IsAskedIn-last (order served) light state led h))

update-cases :
    (w : ℕ → LedConfig) (o : Option (ℕ × LedConfig)) (i : ℕ)
    → (update w o i ≡ w i) ⊎ IsAskedBy o (update w o i)
update-cases w none i = inl refl
update-cases w (some (k, led)) i = elim (Bool-cases (k == i)) [
  | inl same ↦ rw same (inr refl)
  | inr other ↦ rw other (inl refl)
]

-- What a slot holds after some calls is what it held, or one of them asked for it.
wanted-cases :
    (calls : List Call) (w : ℕ → LedConfig) (i : ℕ)
    → (wanted calls w i ≡ w i) ⊎ IsAskedIn calls (wanted calls w i)
unfolding wanted
wanted-cases [] w i = inl refl
wanted-cases ((light, state) ∷ calls) w i =
    elim (wanted-cases calls (update w (request light state)) i) [
      | inl e ↦ elim (update-cases w (request light state) i) [
        | inl same ↦ inl (e ∙ same)
        | inr asked ↦ inr (inl (subst (IsAskedBy (request light state)) (sym e) asked))
      ]
      | inr h ↦ inr (inr h)
    ]

wanted-IsAllowed : (calls : List Call) (i : ℕ) → IsAllowed calls (wanted calls boot_wish i)
wanted-IsAllowed calls i = wanted-cases calls boot_wish i

-- The hypothesis that all flash times of the threads' calls are C `int`s.
abbrev pub AreAllRequests : List (List Call) → Type 0
AreAllRequests [] = Unit {0}
AreAllRequests (calls ∷ rest) = AreRequests calls × AreAllRequests rest

plan-AreRequests :
    (plans : List (List Call)) (k : ℕ)
    → AreAllRequests plans
    → AreRequests (left (get_elem? (all_idle plans) k))
plan-AreRequests [] k h = tt
plan-AreRequests (calls ∷ rest) zero h = h.0
plan-AreRequests (calls ∷ rest) (suc k) h = plan-AreRequests rest k h.1

pub AreRequests-split :
    (xs ys : List Call) → AreRequests (xs ++ ys) → AreRequests xs × AreRequests ys
AreRequests-split [] ys h = (tt, h)
AreRequests-split ((light, state) ∷ xs) ys (one, h) =
    let (before, behind) = AreRequests-split xs ys h in ((one, before), behind)

calls_of-tail :
    (b : Bool) (call : Call) (more : List Call)
    → AreRequests (if b then call ∷ more else more)
    → AreRequests more
calls_of-tail true call more h = h.1
calls_of-tail false call more h = h

calls_of_self : (j : ℕ) → (j == j) ≡ true
calls_of_self j = ground arith

order-AreRequests :
    (served : List (ℕ × Call))
    → ((k : ℕ) → AreRequests (calls_of k served))
    → AreRequests (order served)
order-AreRequests [] h = tt
order-AreRequests ((j, (light, state)) ∷ rest) h = (
  (rw (calls_of_self j) at (h j)).0,
  order-AreRequests rest (λ k. calls_of-tail (j == k) (light, state) (calls_of k rest) (h k)),
)

module _ (l : Lights) (plans : List (List Call)) (requests : AreAllRequests plans) where
  pub reached-AreRequests :
      {s : System} (k : ℕ)
      → Reach (start l plans) s
      → AreRequests (calls_of k s.served) × AreRequests (left (get_elem? s.threads k))
  reached-AreRequests {s} k r =
      AreRequests-split (calls_of k s.served) (left (get_elem? s.threads k))
        (subst AreRequests (sym (Reach-plan k r)) (plan-AreRequests plans k requests))

  pub served-AreRequests : {s : System} → Reach (start l plans) s → AreRequests (order s.served)
  served-AreRequests {s} r = order-AreRequests s.served (λ k. (reached-AreRequests k r).0)

module _ (boot : Sysfs) (calls : List Call) (up : IsUp boot) (requests : AreRequests calls) where
  pub run-SlotsFit : SlotsFit boot.written (IsAllowed calls) (run (init boot) calls)
  run-SlotsFit i = (
    subst (IsAllowed calls) (sym (slots-wanted boot calls i)) (wanted-IsAllowed calls i),
    (sound boot calls up requests).timed i,
  )

  shown-IsAllowed : (cur : ℤ) → IsAllowed calls (shown (run (init boot) calls).leds cur)
  shown-IsAllowed (pos c) = (run-SlotsFit c).0
  shown-IsAllowed (negsuc k) = inl refl

  pub run-IsWhole : IsWhole boot.written (IsAllowed calls) (run (init boot) calls)
  run-IsWhole lit = elim (sound boot calls up requests).shows [
    | inl view ↦ inl (
      shown (run (init boot) calls).leds (run (init boot) calls).cur_led,
      shown-IsAllowed (run (init boot) calls).cur_led,
      view,
    )
    | inr (dark, view) ↦ inr view
  ]
