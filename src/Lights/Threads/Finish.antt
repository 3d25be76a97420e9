-- ===== src/Lights/Threads/Finish.antt =====
-- The threads of liblight/lights.c can always be led to their end.
use android_device_gionee_p.Common.{
  ℕ, zero, suc, ◌<◌, ◌≡◌, ◌≢◌, ◌⊎◌, inl, inr, refl, List, [], ◌∷◌, some, get_elem?, arith,
}
use android_device_gionee_p.Lights.{Lights, run}
use android_device_gionee_p.Lights.Code.Whole.{HasSlots}
use android_device_gionee_p.Lights.Threads.{
  Call, Thread, idle, inside, System, Step, enter, access, leave, Reach, here, next, all_idle,
  start, order, calls_of, left,
}
use android_device_gionee_p.Lights.Threads.Serial.{reached-Serial}
use android_device_gionee_p.Lights.Threads.Progress.{no_deadlock, all_served}
use android_device_gionee_p.Lights.Threads.Weights.{weights, Step-weights}

-- No call is left, and none is being made.
abbrev pub AreFinished : List Thread → Type 0
AreFinished [] = Unit {0}
AreFinished (idle [] ∷ rest) = AreFinished rest
AreFinished (idle (call ∷ calls) ∷ rest) = ⊥
AreFinished (inside c calls ∷ rest) = ⊥

abbrev pub IsServed : List (List Call) → System → Type 0
IsServed plans s = (k : ℕ) → calls_of k s.served ≡ left (get_elem? (all_idle plans) k)

abbrev Unfinished : List Thread → Type 0
Unfinished threads = (i : ℕ) × (t : Thread) × (get_elem? threads i ≡ some t) × (t ≢ idle [])

Unfinished-later : (t : Thread) (rest : List Thread) → Unfinished rest → Unfinished (t ∷ rest)
Unfinished-later t rest (i, u, at, h) = (suc i, u, at, h)

AreFinished-cases : (threads : List Thread) → AreFinished threads ⊎ Unfinished threads
AreFinished-cases [] = inl tt
AreFinished-cases (idle [] ∷ rest) = elim (AreFinished-cases rest) [
  | inl all ↦ inl all
  | inr some_left ↦ inr (Unfinished-later (idle []) rest some_left)
]
AreFinished-cases (idle (call ∷ calls) ∷ rest) = inr (0, idle (call ∷ calls), refl, λ e. cc)
AreFinished-cases (inside c calls ∷ rest) = inr (0, inside c calls, refl, λ e. cc)

finished_at :
    (threads : List Thread) (i : ℕ) (t : Thread)
    → AreFinished threads
    → get_elem? threads i ≡ some t
    → t ≡ idle []
finished_at [] i t h at = cc
finished_at (idle [] ∷ rest) zero t h at = cc
finished_at (idle [] ∷ rest) (suc i) t h at = finished_at rest i t h at
finished_at (idle (call ∷ calls) ∷ rest) i t h at = absurd h
finished_at (inside c calls ∷ rest) i t h at = absurd h

finished_stuck : {s : System} → AreFinished s.threads → (u : System) → Step s u → ⊥
finished_stuck {s} h _ (enter i light state calls at vacant) =
    let same = finished_at s.threads i (idle ((light, state) ∷ calls)) h at in cc
finished_stuck {s} h _ (access i c calls at pending) =
    let same = finished_at s.threads i (inside c calls) h at in cc
finished_stuck {s} h _ (leave i c calls at over) =
    let same = finished_at s.threads i (inside c calls) h at in cc

after : {s t u : System} → Step s t → Reach t u → Reach s u
after step here = next here step
after step (next r last) = next (after step r) last

abbrev CanFinish : Lights → List (List Call) → System → Type 0
CanFinish l plans s =
    (u : System) × Reach s u
    × AreFinished u.threads
    × (u.lights ≡ run l (order u.served))
    × IsServed plans u

finish_now :
    (l : Lights) (plans : List (List Call)) {s : System}
    → HasSlots l
    → Reach (start l plans) s
    → AreFinished s.threads
    → CanFinish l plans s
finish_now l plans {s} slots r h = (
  s,
  here,
  h,
  (all_served l plans 0 slots r (finished_stuck h)).0,
  λ k. (all_served l plans k slots r (finished_stuck h)).1,
)

finish_later :
    (l : Lights) (plans : List (List Call)) {s t : System}
    → Step s t
    → CanFinish l plans t
    → CanFinish l plans s
finish_later l plans step (u, r, h, lights, served) = (u, after step r, h, lights, served)

finish_within :
    (n : ℕ) (l : Lights) (plans : List (List Call)) {s : System}
    → HasSlots l
    → Reach (start l plans) s
    → weights s.lights s.threads < n
    → CanFinish l plans s
finish_within zero l plans slots r fuel = absurd (let no_way : ⊥ = omega arith in no_way)
finish_within (suc n) l plans {s} slots r fuel = elim (AreFinished-cases s.threads) [
  | inl h ↦ finish_now l plans slots r h
  | inr (i, t, at, h) ↦
      let (u, step) = no_deadlock l plans i t slots r at h in
      let less = Step-weights l (reached-Serial l plans slots r) step in
      finish_later l plans step (finish_within n l plans slots (next r step) (omega arith))
]

-- From a state with three slots and any plans of calls: whatever turns the threads have taken,
-- they can go on until every thread is at its end, has been served all the calls of its plan in
-- their order, and the lights are as if the calls that got the lock had been made one after the
-- other in that order.
pub can_finish :
    (l : Lights) (plans : List (List Call)) {s : System}
    → HasSlots l
    → Reach (start l plans) s
    → (u : System) × Reach s u
      × AreFinished u.threads
      × (u.lights ≡ run l (order u.served))
      × IsServed plans u
can_finish l plans {s} slots r =
    finish_within (suc (weights s.lights s.threads)) l plans slots r (omega arith)
