-- ===== src/Lights/Threads/Weights.antt =====
-- The threads of liblight/lights.c come to an end after a bounded number of steps.
use android_device_gionee_p.Common.{
  ℕ, zero, suc, ◌+◌, ◌*◌, ◌≤◌, ◌<◌, ◌≡◌, ◌⊎◌, inl, inr, refl, sym, ◌∙◌, List, [], ◌∷◌, false, some,
  get_elem?, set, length, arith,
}
use android_device_gionee_p.Lights.{Lights}
use android_device_gionee_p.Lights.Code.{Code, call_code, advance, accesses}
use android_device_gionee_p.Lights.Code.Whole.{HasSlots}
use android_device_gionee_p.Lights.Code.Count.{accesses-advance, accesses-call_code}
use android_device_gionee_p.Lights.Threads.{
  Call, Thread, idle, inside, System, Step, enter, access, leave, Reach, here, next, all_idle,
  start,
}
use android_device_gionee_p.Lights.Threads.Serial.{
  IsIdle, holder_unique, Serial, free, held, reached-Serial,
}

-- The steps that a thread has still to make.
weight : Lights → Thread → ℕ
weight l (idle calls) = 27 * length calls
weight l (inside c calls) = suc (accesses c l) + 27 * length calls

pub weights : Lights → List Thread → ℕ
weights l [] = 0
weights l (t ∷ rest) = weight l t + weights l rest

weight-idle : (l m : Lights) (t : Thread) → IsIdle (some t) → weight m t ≡ weight l t
unfolding weight
weight-idle l m (idle calls) h = refl
weight-idle l m (inside c calls) h = absurd h

weights-idle :
    (l m : Lights) (threads : List Thread)
    → ((j : ℕ) → IsIdle (get_elem? threads j))
    → weights m threads ≡ weights l threads
unfolding weights
weights-idle l m [] h = refl
weights-idle l m (t ∷ rest) h =
    omega (arith, weight-idle l m t (h 0), weights-idle l m rest (λ j. h (suc j)))

not_zero : {P : Type 0} (j : ℕ) → (0 ≡ suc j) ⊎ P → P
not_zero j (inl e) = absurd (let no_way : ⊥ = omega arith in no_way)
not_zero j (inr h) = h

not_suc : {P : Type 0} {i : ℕ} → (suc i ≡ 0) ⊎ P → P
not_suc (inl e) = absurd (let no_way : ⊥ = omega arith in no_way)
not_suc (inr h) = h

-- Who moves changes no other thread's weight.
weights-set :
    (l m : Lights) (threads : List Thread) (i : ℕ) (t u : Thread)
    → get_elem? threads i ≡ some u
    → ((j : ℕ) → (i ≡ j) ⊎ IsIdle (get_elem? threads j))
    → weights m (set threads i t) + weight l u ≡ weights l threads + weight m t
unfolding weights
weights-set l m [] i t u at others = cc
weights-set l m (x ∷ rest) zero t u at others =
    let same : weight l x ≡ weight l u = cc in
    let idle_rest = weights-idle l m rest (λ j. not_zero j (others (suc j))) in omega arith
weights-set l m (x ∷ rest) (suc i) t u at others =
    let head = weight-idle l m x (not_suc (others 0)) in
    let tail =
      weights-set l m rest i t u at
        (λ j. elim (others (suc j)) [ inl e ↦ inl (omega arith) | inr h ↦ inr h ]) in
    omega arith

-- Who moves from inside is the only one who is.
pub alone :
    (l : Lights) {s : System} (i : ℕ) (c : Code) (calls : List Call)
    → Serial l s
    → get_elem? s.threads i ≡ some (inside c calls)
    → (j : ℕ) → (i ≡ j) ⊎ IsIdle (get_elem? s.threads j)
alone l {s} i c calls (free unlocked all lights) at j = inr (all j)
alone l {s} i c calls (held k d rest locked there others ends) at j = elim (others j) [
  | inl e ↦ inl (sym (holder_unique s.threads k i c calls others at) ∙ e)
  | inr h ↦ inr h
]

pub vacant-IsIdle :
    (l : Lights) {s : System}
    → Serial l s
    → s.locked ≡ false
    → (j : ℕ) → IsIdle (get_elem? s.threads j)
vacant-IsIdle l (free unlocked all lights) vacant j = all j
vacant-IsIdle l (held k d rest locked there others ends) vacant j = cc

pub Step-weights :
    (l : Lights) {s t : System}
    → Serial l s
    → Step s t
    → weights t.lights t.threads < weights s.lights s.threads
unfolding weight
Step-weights l {s} h (enter i light state calls at vacant) =
    let moved =
      weights-set s.lights s.lights s.threads i (inside (call_code light state) calls)
        (idle ((light, state) ∷ calls)) at (λ j. inr (vacant-IsIdle l h vacant j)) in
    omega (arith, accesses-call_code light state s.lights)
Step-weights l {s} h (access i c calls at pending) =
    let moved =
      weights-set s.lights (advance c s.lights).1 s.threads i (inside (advance c s.lights).0 calls)
        (inside c calls) at (alone l i c calls h at) in
    omega (arith, accesses-advance c s.lights pending)
Step-weights l {s} h (leave i c calls at over) =
    let moved =
      weights-set s.lights s.lights s.threads i (idle calls) (inside c calls) at
        (alone l i c calls h at) in
    omega arith

abbrev pub steps : {s t : System} → Reach s t → ℕ
steps here = 0
steps (next r step) = suc (steps r)

steps-weights :
    (l : Lights) (plans : List (List Call)) {s : System}
    → HasSlots l
    → (r : Reach (start l plans) s)
    → steps r + weights s.lights s.threads ≤ weights l (all_idle plans)
steps-weights l plans slots here = omega arith
steps-weights l plans slots (next r step) =
    omega
      (arith, steps-weights l plans slots r, Step-weights l (reached-Serial l plans slots r) step)

abbrev pub calls_in : List (List Call) → ℕ
calls_in [] = 0
calls_in (calls ∷ rest) = length calls + calls_in rest

weights-all_idle :
    (l : Lights) (plans : List (List Call)) → weights l (all_idle plans) ≡ 27 * calls_in plans
unfolding weights weight
weights-all_idle l [] = refl
weights-all_idle l (calls ∷ rest) = omega (arith, weights-all_idle l rest)

-- From a state with three slots, however the threads take turns, they make at most 27 steps for
-- each call that was planned: the lock, the unlock, and no more than 25 accesses.
pub steps_bounded :
    (l : Lights) (plans : List (List Call)) {s : System}
    → HasSlots l
    → (r : Reach (start l plans) s) → steps r ≤ 27 * calls_in plans
steps_bounded l plans slots r =
    omega (arith, steps-weights l plans slots r, weights-all_idle l plans)
