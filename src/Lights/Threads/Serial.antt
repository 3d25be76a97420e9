-- ===== src/Lights/Threads/Serial.antt =====
-- The threads of liblight/lights.c exclude one another, and what they do together is what their
-- calls do one after the other.
use native.Mathlib.Decide.{ℕ_discrete}
use android_device_gionee_p.Common.{
  ℕ, zero, suc, ◌≡◌, ◌⊎◌, inl, inr, refl, sym, ◌∙◌, ap, subst, List, [], ◌∷◌, ◌++◌, true, false,
  Option, none, some, get_elem?, set, length, get_elem?-set_self, get_elem?-set_ne,
}
use android_device_gionee_p.Common.Int.{ℤ}
use android_device_gionee_p.Lights.{LightState, Lights, Light, set_light, run}
use android_device_gionee_p.Lights.Refines.{leds-set_light}
use android_device_gionee_p.Lights.Code.{Code, call_code, advance, finish}
use android_device_gionee_p.Lights.Code.Whole.{HasSlots, finish-advance, finish-call_code, finished}
use android_device_gionee_p.Lights.Threads.{
  Call, Thread, idle, inside, System, Step, enter, access, leave, Reach, here, next, all_idle,
  start, order,
}

abbrev pub IsIdle : Option Thread → Type 0
IsIdle none = Unit {0}
IsIdle (some (idle calls)) = Unit {0}
IsIdle (some (inside c calls)) = ⊥

run-snoc :
    (l : Lights) (served : List (ℕ × Call)) (i : ℕ) (light : Light) (state : LightState)
    → run l (order (served ++ (i, (light, state)) ∷ []))
      ≡ (set_light light state (run l (order served))).1
unfolding run
run-snoc l [] i light state = refl
run-snoc l ((j, (other, asked)) ∷ rest) i light state =
    run-snoc (set_light other asked l).1 rest i light state

pub run-HasSlots : (l : Lights) (calls : List Call) → HasSlots l → HasSlots (run l calls)
unfolding run
run-HasSlots l [] h = h
run-HasSlots l ((light, state) ∷ rest) h =
    run-HasSlots (set_light light state l).1 rest (leds-set_light light state l h).0

-- Nobody is inside and the lights are as after the calls served; or one thread is inside, and they
-- will be when it has finished.
pub data Serial (l : Lights) (s : System) : Type 0 where
  free :
      s.locked ≡ false
      → ((j : ℕ) → IsIdle (get_elem? s.threads j))
      → s.lights ≡ run l (order s.served)
      → Serial l s
  held :
      (i : ℕ) (c : Code) (calls : List Call)
      → s.locked ≡ true
      → get_elem? s.threads i ≡ some (inside c calls)
      → ((j : ℕ) → (i ≡ j) ⊎ IsIdle (get_elem? s.threads j))
      → (finish c s.lights).1 ≡ run l (order s.served)
      → Serial l s

-- Who is not idle is the holder, and is inside with the holder's code.
pub not_idle :
    {o : Option Thread} {c : Code} {calls : List Call} → o ≡ some (inside c calls) → IsIdle o → ⊥
not_idle {o = none} e h = cc
not_idle {o = some (idle calls)} e h = cc
not_idle {o = some (inside c calls)} e h = h

pub holder_unique :
    (threads : List Thread) (i j : ℕ) (c : Code) (calls : List Call)
    → ((k : ℕ) → (i ≡ k) ⊎ IsIdle (get_elem? threads k))
    → get_elem? threads j ≡ some (inside c calls)
    → i ≡ j
holder_unique threads i j c calls others at = elim (others j) [
  | inl e ↦ e
  | inr h ↦ absurd (not_idle at h)
]

-- After thread `i` has moved, the others are as idle as they were.
others-IsIdle :
    (threads : List Thread) (i : ℕ) (t : Thread)
    → ((j : ℕ) → (i ≡ j) ⊎ IsIdle (get_elem? threads j))
    → (j : ℕ) → (i ≡ j) ⊎ IsIdle (get_elem? (set threads i t) j)
others-IsIdle threads i t others j = elim (ℕ_discrete i j) [
  | yes e ↦ inl e
  | no ne ↦ elim (others j) [
    | inl e ↦ inl e
    | inr h ↦ inr (rw (get_elem?-set_ne threads i j t ne) h)
  ]
]

now_idle :
    (threads : List Thread) (i : ℕ) (t : Thread) (calls : List Call)
    → get_elem? threads i ≡ some t
    → ((j : ℕ) → (i ≡ j) ⊎ IsIdle (get_elem? threads j))
    → (j : ℕ) → IsIdle (get_elem? (set threads i (idle calls)) j)
now_idle threads i t calls at others j = elim (ℕ_discrete i j) [
  | yes e ↦ rw (← e) (rw (get_elem?-set_self threads i (idle calls) at) tt)
  | no ne ↦ elim (others j) [
    | inl e ↦ absurd (ne e)
    | inr h ↦ rw (get_elem?-set_ne threads i j (idle calls) ne) h
  ]
]

pub same_code :
    {o : Option Thread} {c e : Code} {calls more : List Call}
    → o ≡ some (inside c calls)
    → o ≡ some (inside e more)
    → c ≡ e
same_code h k = cc

module _ (l : Lights) (slots : HasSlots l) where
  pub Step-Serial : {s t : System} → Step s t → Serial l s → Serial l t
  Step-Serial {s} (enter i light state calls at vacant) (free unlocked all lights) =
      held i (call_code light state) calls refl
        (get_elem?-set_self s.threads i (inside (call_code light state) calls) at)
        (others-IsIdle s.threads i (inside (call_code light state) calls) (λ j. inr (all j)))
        (finish-call_code light state s.lights
            (ap (λ (m : Lights). length m.leds) lights ∙ run-HasSlots l (order s.served) slots)
          ∙ ap (λ (m : Lights). (set_light light state m).1) lights
          ∙ sym (run-snoc l s.served i light state))
  Step-Serial {s} (enter i light state calls at vacant) (held j c more locked there others ends) =
      cc
  Step-Serial {s} (access i c calls at pending) (free unlocked all lights) =
      absurd (not_idle at (all i))
  Step-Serial {s} (access i c calls at pending) (held j e more locked there others ends) =
      let same = holder_unique s.threads j i c calls others at in
      let code : e ≡ c = same_code there (ap (λ (k : ℕ). get_elem? s.threads k) same ∙ at) in
      let moved = inside (advance c s.lights).0 calls in
      held i (advance c s.lights).0 calls locked (get_elem?-set_self s.threads i moved at)
        (others-IsIdle s.threads i moved
          (subst (λ (k : ℕ). (n : ℕ) → (k ≡ n) ⊎ IsIdle (get_elem? s.threads n)) same others))
        (ap (λ (r : ℤ × Lights). r.1) (finish-advance c s.lights)
          ∙ ap (λ (d : Code). (finish d s.lights).1) (sym code)
          ∙ ends)
  Step-Serial {s} (leave i c calls at over) (free unlocked all lights) =
      absurd (not_idle at (all i))
  Step-Serial {s} (leave i c calls at over) (held j e more locked there others ends) =
      let same = holder_unique s.threads j i c calls others at in
      let code : e ≡ c = same_code there (ap (λ (k : ℕ). get_elem? s.threads k) same ∙ at) in
      free refl
        (now_idle s.threads i (inside c calls) calls at
          (subst (λ (k : ℕ). (n : ℕ) → (k ≡ n) ⊎ IsIdle (get_elem? s.threads n)) same others))
        (sym (finished c s.lights over)
          ∙ ap (λ (d : Code). (finish d s.lights).1) (sym code)
          ∙ ends)

  pub Reach-Serial : (s t : System) → Serial l s → Reach s t → Serial l t
  Reach-Serial s t h here = h
  Reach-Serial s t h (next r step) = Step-Serial step (Reach-Serial s _ h r)

all_idle-IsIdle : (plans : List (List Call)) (j : ℕ) → IsIdle (get_elem? (all_idle plans) j)
all_idle-IsIdle [] j = tt
all_idle-IsIdle (calls ∷ rest) zero = tt
all_idle-IsIdle (calls ∷ rest) (suc j) = all_idle-IsIdle rest j

pub start-Serial : (l : Lights) (plans : List (List Call)) → Serial l (start l plans)
unfolding run
start-Serial l plans = free refl (all_idle-IsIdle plans) refl

pub reached-Serial :
    (l : Lights) (plans : List (List Call)) {s : System}
    → HasSlots l
    → Reach (start l plans) s
    → Serial l s
reached-Serial l plans slots r = Reach-Serial l slots (start l plans) _ (start-Serial l plans) r

-- From a state with three slots and any plans of calls: whenever the lock is free, the lights are
-- as if the calls that got the lock had been made one after the other, each in one step, in that
-- order.
pub linearizable :
    (l : Lights) (plans : List (List Call)) {s : System}
    → HasSlots l
    → Reach (start l plans) s
    → s.locked ≡ false
    → s.lights ≡ run l (order s.served)
linearizable l plans slots r unlocked = elim (reached-Serial l plans slots r) [
  | free _ all lights ↦ lights
  | held k d rest locked holds others ends ↦ cc
]
