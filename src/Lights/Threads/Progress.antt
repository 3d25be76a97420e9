-- ===== src/Lights/Threads/Progress.antt =====
-- The threads of liblight/lights.c come to an end, with all their calls made.
use android_device_gionee_p.Common.{
  ℕ, ◌≡◌, ◌≢◌, ◌⊎◌, inl, inr, refl, sym, ◌∙◌, ap, List, [], ◌∷◌, ◌++◌, append-nil, false, some,
  get_elem?, Option-cases,
}
use android_device_gionee_p.Lights.{Lights, run}
use android_device_gionee_p.Lights.Code.{
  Code, done, write, write_blink, read_led, read_cur_led, store_on, store_off, store_color,
  store_cur_led, IsPending,
}
use android_device_gionee_p.Lights.Code.Whole.{HasSlots}
use android_device_gionee_p.Lights.Threads.{
  Call, Thread, idle, inside, System, Step, enter, access, leave, Reach, all_idle, start, order,
  calls_of, left,
}
use android_device_gionee_p.Lights.Threads.Serial.{Serial, free, held, reached-Serial, linearizable}
use android_device_gionee_p.Lights.Threads.Served.{Reach-plan}

IsPending-cases : (c : Code) → IsPending c ⊎ (IsPending c → ⊥)
IsPending-cases (done ret) = inr (λ h. h)
IsPending-cases (write f value rest) = inl tt
IsPending-cases (write_blink f on off rest) = inl tt
IsPending-cases (read_led i rest) = inl tt
IsPending-cases (read_cur_led rest) = inl tt
IsPending-cases (store_on i on rest) = inl tt
IsPending-cases (store_off i off rest) = inl tt
IsPending-cases (store_color i color rest) = inl tt
IsPending-cases (store_cur_led cur rest) = inl tt

-- With a call to make on a free lock, or inside of the lock, a thread can move.
idle-moves :
    {s : System} (i : ℕ) (calls : List Call)
    → s.locked ≡ false
    → get_elem? s.threads i ≡ some (idle calls)
    → calls ≢ []
    → (u : System) × Step s u
idle-moves i [] vacant at some_left = absurd (some_left refl)
idle-moves i ((light, state) ∷ calls) vacant at some_left = (_, enter i light state calls at vacant)

inside-moves :
    {s : System} (i : ℕ) (c : Code) (calls : List Call)
    → get_elem? s.threads i ≡ some (inside c calls)
    → (u : System) × Step s u
inside-moves i c calls at = elim (IsPending-cases c) [
  | inl pending ↦ (_, access i c calls at pending)
  | inr over ↦ (_, leave i c calls at over)
]

-- From a state with three slots and any plans of calls: while a thread has not come to its end,
-- some thread can move.
pub no_deadlock :
    (l : Lights) (plans : List (List Call)) {s : System} (i : ℕ) (t : Thread)
    → HasSlots l
    → Reach (start l plans) s
    → get_elem? s.threads i ≡ some t
    → t ≢ idle []
    → (u : System) × Step s u
no_deadlock l plans i (inside c calls) slots r at h = inside-moves i c calls at
no_deadlock l plans i (idle calls) slots r at h = elim (reached-Serial l plans slots r) [
  | free unlocked all lights ↦ idle-moves i calls unlocked at (λ e. h (ap idle e))
  | held k d rest locked holds others ends ↦ inside-moves k d rest holds
]

stuck-thread :
    (l : Lights) (plans : List (List Call)) {s : System} (i : ℕ) (t : Thread)
    → HasSlots l
    → Reach (start l plans) s
    → ((u : System) → Step s u → ⊥)
    → get_elem? s.threads i ≡ some t
    → left (some t) ≡ []
stuck-thread l plans i (inside c calls) slots r stuck at =
    let (u, step) = inside-moves i c calls at in absurd (stuck u step)
stuck-thread l plans i (idle []) slots r stuck at = refl
stuck-thread l plans i (idle (call ∷ calls)) slots r stuck at =
    let (u, step) = no_deadlock l plans i (idle (call ∷ calls)) slots r at (λ e. cc) in
    absurd (stuck u step)

stuck-vacant :
    (l : Lights) {s : System} → Serial l s → ((u : System) → Step s u → ⊥) → s.locked ≡ false
stuck-vacant l (free unlocked all lights) stuck = unlocked
stuck-vacant l (held k d rest locked there others ends) stuck =
    let (u, step) = inside-moves k d rest there in absurd (stuck u step)

stuck-left :
    (l : Lights) (plans : List (List Call)) {s : System} (i : ℕ)
    → HasSlots l
    → Reach (start l plans) s
    → ((u : System) → Step s u → ⊥)
    → left (get_elem? s.threads i) ≡ []
stuck-left l plans {s} i slots r stuck = elim (Option-cases (get_elem? s.threads i)) [
  | inl e ↦ rw e refl
  | inr (t, e) ↦ rw e (stuck-thread l plans i t slots r stuck e)
]

-- From a state with three slots and any plans of calls: when no thread can move any more, the
-- lights are as if the calls that got the lock had been made one after the other in that order,
-- and thread `k` has been served all the calls of its plan in their order.
pub all_served :
    (l : Lights) (plans : List (List Call)) {s : System} (k : ℕ)
    → HasSlots l
    → Reach (start l plans) s
    → ((u : System) → Step s u → ⊥)
    → (s.lights ≡ run l (order s.served))
      × (calls_of k s.served ≡ left (get_elem? (all_idle plans) k))
all_served l plans {s} k slots r stuck = (
  linearizable l plans slots r (stuck-vacant l (reached-Serial l plans slots r) stuck),
  sym (append-nil (calls_of k s.served))
      ∙ ap (λ (rest : List Call). calls_of k s.served ++ rest)
          (sym (stuck-left l plans k slots r stuck))
      ∙ Reach-plan k r,
)
